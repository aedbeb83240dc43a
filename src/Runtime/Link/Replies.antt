-- ===== src/Runtime/Link/Replies.antt =====
-- Which frame a loader call takes for its answer.
use tee_demo.Base.{
  ℕ, ◌≡◌, ap, true, false, some, List, [], ◌∷◌, ◌++◌, map, same_sound, same_option_sound,
  Bool-cases, inl, inr, Fallible, ok, err, panic, arith, All,
}
use tee_demo.Base.Bytes.{Text}
use tee_demo.Protocol.Frame.{Frame}
use tee_demo.Runtime.Link.{answers, await_in}

answers_sound :
    (op : Text) (seq : ℕ) (f : Frame) → answers op seq f ≡ true → (f.op ≡ op) × (f.seq ≡ some seq)
answers_sound op seq f h =
    (same_sound f.op op (ground arith), same_option_sound f.seq (some seq) (ground arith))

-- A frame that a loader call takes has the operation and the sequence number that the call waits
-- for; it is the first such frame in the stream, which up to it holds only other frames, all read
-- without error and dropped, and what follows it is left to be read.
pub await_in_sound :
    (op : Text) (seq : ℕ) (inbox : List (Fallible Frame)) (f : Frame) (rest : List (Fallible Frame))
    → await_in op seq inbox ≡ (ok f, rest)
    → (f.op ≡ op)
      × (f.seq ≡ some seq)
      × (skipped : List Frame) × (inbox ≡ map ok skipped ++ ok f ∷ rest)
      × All (λ g. answers op seq g ≡ false) skipped
unfolding await_in
await_in_sound op seq [] f rest e = cc (ap (λ (p : Fallible Frame × List (Fallible Frame)). p.0) e)
await_in_sound op seq (ok g ∷ inbox) f rest e = elim (Bool-cases (answers op seq g)) [
  | inl h ↦
      let e' = rw h at e in
      let same_frame : g ≡ f = cc (ap (λ (p : Fallible Frame × List (Fallible Frame)). p.0) e') in
      let same_rest = ap (λ (p : Fallible Frame × List (Fallible Frame)). p.1) e' in
      let (o, s) = answers_sound op seq g h in
      (rw same_frame at o, rw same_frame at s, [], cc (same_frame, same_rest), tt)
  | inr h ↦
      let (o, s, skipped, split, all) = await_in_sound op seq inbox f rest (rw h at e) in
      (o, s, g ∷ skipped, ap (λ t. ok g ∷ t) split, (h, all))
]
await_in_sound op seq (err x ∷ inbox) f rest e =
    cc (ap (λ (p : Fallible Frame × List (Fallible Frame)). p.0) e)
await_in_sound op seq (panic ∷ inbox) f rest e =
    cc (ap (λ (p : Fallible Frame × List (Fallible Frame)). p.0) e)
