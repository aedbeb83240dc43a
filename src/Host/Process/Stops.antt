-- ===== src/Host/Process/Stops.antt =====
-- `cmd_stop` of host/src/main.rs stops the daemon that `cmd_serve` has started.
use tee_demo.Base.{
  ℕ, ◌^◌, ◌<◌, ◌≡◌, inl, inr, refl, sym, ap, ◌∙◌, Bool, true, false, not, ◌||◌, Option, none, some,
  [], ◌∷◌, ◌++◌, arith, same, same_refl, same_sound, if◌then◌else◌, Bool-cases, All-map, Fallible,
  ok, err, panic,
}
use tee_demo.Base.State.{State, ◌>>=◌, ◌>>◌, bind-ok}
use tee_demo.Base.Bytes.{Bytes, Text}
use tee_demo.Strings.Decimal.{show_nat, IsDigit, show_nat-All, parse_u32-show_nat}
use tee_demo.Strings.Trim.{IsVisible, trim-eq_self}
use tee_demo.Strings.Utf8.{from_utf8-ascii}
use tee_demo.Host.Connection.{RuntimeConnection}
use tee_demo.Host.Process.{
  System, Kernel, exists, set_file, is_some, is_running, when_exists, check, written, kill_running,
  pid_of, read_pid, write_pid, remove_file, bind, cmd_stop, serve_up,
}

digit_IsVisible : (c : ℕ) → IsDigit c → IsVisible c
digit_IsVisible c h = omega (arith, h)

digit_ascii : (c : ℕ) → IsDigit c → c < 128
digit_ascii c h = omega (arith, h)

-- A process id that was written is read again.
pid_of-show_nat : (pid : ℕ) → pid < 2 ^ 32 → pid_of (some (show_nat pid)) ≡ ok pid
pid_of-show_nat pid h =
    rw
      (
        from_utf8-ascii (show_nat pid) (All-map digit_ascii (show_nat pid) (show_nat-All pid)),
        trim-eq_self (show_nat pid) (All-map digit_IsVisible (show_nat pid) (show_nat-All pid)),
        parse_u32-show_nat pid h,
      )
      refl

-- What a removal leaves
abbrev cleared : Text → System → System
cleared path s = if exists path s then set_file path none s else s

is_some-eq_false : (o : Option Bytes) → is_some o ≡ false → o ≡ none
is_some-eq_false none h = refl
is_some-eq_false (some b) h = cc h

cleared-signalled : (path : Text) (s : System) → (cleared path s).signalled ≡ s.signalled
cleared-signalled path s = elim (Bool-cases (exists path s)) [
  | inl e ↦ rw e refl
  | inr e ↦ rw e refl
]

files-cleared :
    (path : Text) (s : System) (q : Text)
    → (cleared path s).files q ≡ (if same q path then none else s.files q)
files-cleared path s q = elim (Bool-cases (exists path s)) [
  | inl e ↦ rw e refl
  | inr e ↦ rw e (elim (Bool-cases (same q path)) [
    | inl f ↦ rw f (ap s.files (same_sound q path f) ∙ is_some-eq_false (s.files path) e)
    | inr f ↦ rw f refl
  ])
]

either :
    (a b c : Bool) (x : Option Bytes)
    → (if c then none else (if b then none else (if a then none else x)))
      ≡ (if a || b || c then none else x)
either a b c x = ground arith

module _ ⦃kernel : Kernel⦄ where
  removed :
      (path : Text) (s : System)
      → kernel.removable path ≡ true
      → when_exists path (remove_file path) s ≡ (ok tt, cleared path s)
  removed path s h = elim (Bool-cases (exists path s)) [
    | inl e ↦ rw (e, h) refl
    | inr e ↦ rw e refl
  ]

  module _ (pid_path : Text) (pid : ℕ) (s : System) (small : pid < 2 ^ 32)
      (saved : s.files pid_path ≡ some (show_nat pid)) (alive : is_running pid s ≡ true)
      (killed : kernel.kill pid ≡ ok tt) (removable : kernel.removable pid_path ≡ true) where
    abbrev unsaved : System
    unsaved = set_file pid_path none (record s { signalled = s.signalled ++ pid ∷ [] })

    pid_file :
        when_exists pid_path (do p ← read_pid pid_path; kill_running p; remove_file pid_path) s
        ≡ (ok tt, unsaved)
    unfolding read_pid
    pid_file = rw (saved, pid_of-show_nat pid small, alive, killed, removable) refl

    cmd_stop-stopped :
        (socket_path runtime_sock : Text)
        → kernel.removable socket_path ≡ true
        → kernel.removable runtime_sock ≡ true
        → cmd_stop socket_path runtime_sock pid_path s
          ≡ (ok tt, cleared runtime_sock (cleared socket_path unsaved))
    unfolding cmd_stop
    cmd_stop-stopped socket_path runtime_sock r2 r3 =
        rw (pid_file, removed socket_path unsaved r2)
          (removed runtime_sock (cleared socket_path unsaved) r3)

  written-ok :
      (r : Fallible (Unit {0})) (s after t : System) {u : Unit {0}}
      → written r s after ≡ (ok u, t)
      → t ≡ after
  written-ok (ok v) s after t e = sym (ap (λ (p : Fallible (Unit {0}) × System). p.1) e)
  written-ok (err x) s after t e = cc (ap (λ (p : Fallible (Unit {0}) × System). p.0) e)
  written-ok panic s after t e = cc (ap (λ (p : Fallible (Unit {0}) × System). p.0) e)

  -- The pid file of a daemon that has started
  serve_up-saved :
      (start : State System RuntimeConnection) (sgxs loader_bin socket_path pid_path : Text)
      (s s1 : System) (conn : RuntimeConnection)
      → same pid_path socket_path ≡ false
      → serve_up start sgxs loader_bin socket_path pid_path s ≡ (ok conn, s1)
      → s1.files pid_path ≡ some (show_nat kernel.own_pid)
  unfolding serve_up write_pid
  serve_up-saved start sgxs loader_bin socket_path pid_path s s1 conn apart e =
      let (u1, a1, c1, e1) = bind-ok (check (λ s. not (exists socket_path s)) _) _ s e in
      let (u2, a2, c2, e2) = bind-ok (check (exists loader_bin) _) _ a1 e1 in
      let (u3, a3, c3, e3) = bind-ok (check (exists sgxs) _) _ a2 e2 in
      let (runtime, a4, c4, e4) = bind-ok start _ a3 e3 in
      let (u5, a5, c5, e5) = bind-ok (write_pid pid_path) _ a4 e4 in
      let (u6, a6, c6, e6) = bind-ok (bind socket_path) _ a5 e5 in
      let put : a5.files pid_path ≡ some (show_nat kernel.own_pid) =
        ap (λ (t : System). t.files pid_path) (written-ok (kernel.write pid_path) a4 _ a5 c5)
        ∙ rw (same_refl pid_path) refl in
      let kept : a6.files pid_path ≡ a5.files pid_path =
        ap (λ (t : System). t.files pid_path) (written-ok (kernel.bind socket_path) a5 _ a6 c6)
        ∙ rw apart refl in
      sym (ap (λ (p : Fallible RuntimeConnection × System). p.1.files pid_path) e6) ∙ kept ∙ put

  -- `stop` stops what `serve` has started: after a start of the daemon, with a pid that is a u32 and
  -- a pid file that is not the client socket, and while the daemon runs, `stop` succeeds, sends its
  -- one signal to the daemon, and removes the pid file and both sockets and no other file. For a
  -- `kill` and removals that succeed.
  pub cmd_stop-serve_up :
      (start : State System RuntimeConnection)
      (sgxs loader_bin socket_path runtime_sock pid_path : Text) (s s1 : System)
      (conn : RuntimeConnection)
      → kernel.own_pid < 2 ^ 32
      → same pid_path socket_path ≡ false
      → serve_up start sgxs loader_bin socket_path pid_path s ≡ (ok conn, s1)
      → is_running kernel.own_pid s1 ≡ true
      → kernel.kill kernel.own_pid ≡ ok tt
      → kernel.removable pid_path ≡ true
      → kernel.removable socket_path ≡ true
      → kernel.removable runtime_sock ≡ true
      → (s2 : System) × (cmd_stop socket_path runtime_sock pid_path s1 ≡ (ok tt, s2))
        × (s2.signalled ≡ s1.signalled ++ kernel.own_pid ∷ [])
        × ((q : Text)
            → s2.files q ≡ (
                if same q pid_path || same q socket_path || same q runtime_sock
                then none
                else s1.files q))
  cmd_stop-serve_up start sgxs loader_bin socket_path runtime_sock pid_path s s1 conn small apart up
        alive killed r1 r2 r3 =
      let saved = serve_up-saved start sgxs loader_bin socket_path pid_path s s1 conn apart up in
      let mid = unsaved pid_path kernel.own_pid s1 small saved alive killed r1 in
      (
        cleared runtime_sock (cleared socket_path mid),
        cmd_stop-stopped pid_path kernel.own_pid s1 small saved alive killed r1 socket_path
            runtime_sock r2 r3,
        cleared-signalled runtime_sock (cleared socket_path mid)
            ∙ cleared-signalled socket_path mid,
        λ q.
            files-cleared runtime_sock (cleared socket_path mid) q
            ∙ ap (λ (o : Option Bytes). if same q runtime_sock then none else o)
                (files-cleared socket_path mid q)
            ∙ either (same q pid_path) (same q socket_path) (same q runtime_sock) (s1.files q),
      )
