-- ===== src/Loader/Names.antt =====
-- The names that `safe_blob_name` of loader/src/main.rs accepts, as names of a file system.
use tee_demo.Base.{
  ℕ, ◌≡◌, ◌≢◌, refl, sym, ap, ◌∙◌, inl, inr, true, none, some, [], ◌∷◌, arith, same, All,
  Bool-cases,
}
use tee_demo.Base.Bytes.{Text, text}
use tee_demo.Strings.Search.{contains, find_text, starts_with}
use tee_demo.Loader.Blobs.{is_name_char, all_chars, safe_blob_name}

-- Joined to a directory, the name stays in it: it is not empty, has no separator (and no NUL, which
-- no path has), and is not the parent directory.
abbrev pub IsInside : Text → Type 0
IsInside name = (name ≢ []) × (name ≢ text "..") × All (λ c. (c ≢ 47) × (c ≢ 92) × (c ≢ 0)) name

-- It names an entry of the directory, and not the directory.
abbrev pub IsFileName : Text → Type 0
IsFileName name = IsInside name × (name ≢ text ".")

-- A name that is accepted is the one that was asked for.
pub safe_blob_name-same : (path name : Text) → safe_blob_name path ≡ some name → path ≡ name
unfolding safe_blob_name
safe_blob_name-same path name e = ground arith

name_char : (c : ℕ) → is_name_char c ≡ true → (c ≢ 47) × (c ≢ 92) × (c ≢ 0)
name_char c h = ground (arith, h)

all_chars-All :
    (name : Text)
    → all_chars is_name_char name ≡ true
    → All (λ c. (c ≢ 47) × (c ≢ 92) × (c ≢ 0)) name
all_chars-All [] h = tt
all_chars-All (c ∷ name) h = elim (Bool-cases (is_name_char c)) [
  | inl good ↦ (name_char c good, all_chars-All name (rw good at h))
  | inr bad ↦ cc (rw bad at h)
]

accepted_chars :
    (path name : Text) → safe_blob_name path ≡ some name → all_chars is_name_char path ≡ true
unfolding safe_blob_name
accepted_chars path name e = ground (arith, e)

empty-refused : safe_blob_name [] ≡ none
unfolding safe_blob_name same
empty-refused = refl

parent-refused : safe_blob_name (text "..") ≡ none
unfolding safe_blob_name same contains find_text starts_with
parent-refused = refl

-- A name that is accepted stays in the directory.
pub safe_blob_name-IsInside : (path name : Text) → safe_blob_name path ≡ some name → IsInside name
safe_blob_name-IsInside path name e =
    let asked : path ≡ name = safe_blob_name-same path name e in
    let accepted : safe_blob_name name ≡ some name = ap safe_blob_name (sym asked) ∙ e in
    (
      (λ z. cc (accepted, ap safe_blob_name z, empty-refused)),
      (λ z. cc (accepted, ap safe_blob_name z, parent-refused)),
      all_chars-All name (accepted_chars name name accepted),
    )
