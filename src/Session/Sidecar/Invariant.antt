-- ===== src/Session/Sidecar/Invariant.antt =====
-- What holds of the files and the processes in every reachable state.
use functional_tests.Base.{
  ℕ, ◌≡◌, ◌≢◌, ◌⊎◌, inl, inr, refl, sym, ap, subst, ◌∙◌, Option, none, some, [], ◌++◌, nat_eq,
  text_eq, arith,
}
use functional_tests.Base.Text.{Text}
use functional_tests.Base.Family.{updated, updated-same, updated-apart, updated-elim}
use functional_tests.Session.Sidecar.{
  Files, put, Pc, writing, written, replaced, warned, temp_path, Move, mkdir, create, write,
  write_fails, close, replace, fails, unlink, unlink_fails, System, pick, Reach, start, later,
}
use functional_tests.Session.Sidecar.Paths.{temp_path_apart, temp_path_injective}
use mathlib.Core.List.{append_assoc, append-nil}

-- What the place of a process says of its temporary file; `text` is what the process has to write.
abbrev pub IsOwn : Text → Option Text → Pc → Type 0
IsOwn text file (writing rest) = (prefix : Text) × (file ≡ some prefix) × (prefix ++ rest ≡ text)
IsOwn text file written = file ≡ some text
IsOwn text file replaced = file ≡ none
IsOwn text file warned = file ≡ none
IsOwn text file _ = Unit

module _ (str : ℕ → Text) (sidecar : Text) (contents : ℕ → Text) where
  abbrev temp : ℕ → Text
  temp = temp_path str sidecar

  -- The process whose contents the sidecar holds.
  abbrev pub Holder : Files → (ℕ → Pc) → Type 0
  Holder fs pc = (i : ℕ) × (pc i ≡ replaced) × (fs sidecar ≡ some (contents i))

  pub record Inv (before : Files) (fs : Files) (pc : ℕ → Pc) : Type 0 where
    pub own : (i : ℕ) → IsOwn (contents i) (fs (temp i)) (pc i)
    pub whole : (((i : ℕ) → pc i ≢ replaced) × (fs sidecar ≡ before sidecar)) ⊎ Holder fs pc
    pub others : (path : Text) → path ≢ sidecar → ((i : ℕ) → path ≢ temp i) → fs path ≡ before path

  Move-IsOwn :
      {pid : ℕ} {fs fs' : Files} {p p' : Pc}
      → Move str sidecar contents pid fs p fs' p'
      → IsOwn (contents pid) (fs (temp pid)) p
      → IsOwn (contents pid) (fs' (temp pid)) p'
  Move-IsOwn mkdir own = tt
  Move-IsOwn {pid} {fs} create own = ([], updated-same fs (temp pid) (some []), refl)
  Move-IsOwn {pid} {fs} (write chunk {rest} split) (done, holds, whole) =
      (done ++ chunk, grind (arith, updated-same), cc (append_assoc done chunk rest))
  Move-IsOwn (write_fails _) own = tt
  Move-IsOwn close (done, holds, rest) = ground (arith, append-nil done)
  Move-IsOwn (replace found) own = grind (arith, updated-same)
  Move-IsOwn (fails _) own = tt
  Move-IsOwn unlink own = grind (arith, updated-same)
  Move-IsOwn unlink_fails own = tt

  module _ (injective : (i j : ℕ) → str i ≡ str j → i ≡ j) where
    apart_temp : (i j : ℕ) → j ≢ i → temp i ≢ temp j
    apart_temp i j apart p = apart (sym (temp_path_injective str sidecar injective i j p))

    -- No other temporary file changes.
    Move-apart :
        {pid : ℕ} {fs fs' : Files} {p p' : Pc}
        → Move str sidecar contents pid fs p fs' p'
        → (i : ℕ) → i ≢ pid
        → fs' (temp i) ≡ fs (temp i)
    Move-apart {pid} {fs} create i apart =
        updated-apart fs (temp pid) _ (temp i) (apart_temp pid i apart)
    Move-apart {pid} {fs} (write chunk _) i apart =
        updated-apart fs (temp pid) _ (temp i) (apart_temp pid i apart)
    Move-apart {pid} {fs} (replace {text} found) i apart =
        updated-apart (put fs sidecar (some text)) (temp pid) _ (temp i) (apart_temp pid i apart)
        ∙ updated-apart fs sidecar _ (temp i) (temp_path_apart str sidecar i)
    Move-apart {pid} {fs} (write_fails _) i apart =
        updated-apart fs (temp pid) _ (temp i) (apart_temp pid i apart)
    Move-apart {pid} {fs} unlink i apart =
        updated-apart fs (temp pid) _ (temp i) (apart_temp pid i apart)
    Move-apart mkdir i apart = refl
    Move-apart close i apart = refl
    Move-apart (fails _) i apart = refl
    Move-apart unlink_fails i apart = refl

  -- The temporary file is not the sidecar.
  put-sidecar : (fs : Files) (pid : ℕ) (o : Option Text) → put fs (temp pid) o sidecar ≡ fs sidecar
  put-sidecar fs pid o =
      updated-apart fs (temp pid) o sidecar (λ p. temp_path_apart str sidecar pid (sym p))

  -- Nor is it a path that is no temporary file.
  elsewhere :
      (fs : Files) (pid : ℕ) (o : Option Text) (path : Text)
      → path ≢ temp pid
      → put fs (temp pid) o path ≡ fs path
  elsewhere fs pid o path apart = updated-apart fs (temp pid) o path (λ p. apart (sym p))

  -- A process that has replaced the sidecar is at its end, and only this step changes the sidecar.
  Move-sidecar :
      {pid : ℕ} {fs fs' : Files} {p p' : Pc}
      → Move str sidecar contents pid fs p fs' p'
      → IsOwn (contents pid) (fs (temp pid)) p
      → (p ≢ replaced)
        × (((p' ≢ replaced) × (fs' sidecar ≡ fs sidecar))
            ⊎ ((p' ≡ replaced) × (fs' sidecar ≡ some (contents pid))))
  Move-sidecar mkdir own = (ground arith, inl (ground arith))
  Move-sidecar {pid} {fs} create own = (ground arith, inl (ground arith, put-sidecar fs pid _))
  Move-sidecar {pid} {fs} (write _ _) own = (ground arith, inl (ground arith, put-sidecar fs pid _))
  Move-sidecar close own = (ground arith, inl (ground arith))
  Move-sidecar {pid} {fs} (replace {text} found) own = (
    ground arith,
    inr (
      refl,
      put-sidecar (put fs sidecar (some text)) pid none
          ∙ updated-same fs sidecar (some text)
          ∙ sym found
          ∙ own,
    ),
  )
  Move-sidecar (fails within) own = (ground arith, inl (ground arith))
  Move-sidecar {pid} {fs} (write_fails _) own =
      (ground arith, inl (ground arith, put-sidecar fs pid _))
  Move-sidecar {pid} {fs} unlink own = (ground arith, inl (ground arith, put-sidecar fs pid _))
  Move-sidecar unlink_fails own = (ground arith, inl (ground arith))

  Move-others :
      {pid : ℕ} {fs fs' : Files} {p p' : Pc}
      → Move str sidecar contents pid fs p fs' p'
      → (path : Text) → path ≢ sidecar
      → ((i : ℕ) → path ≢ temp i)
      → fs' path ≡ fs path
  Move-others {pid} {fs} create path side temps = elsewhere fs pid _ path (temps pid)
  Move-others {pid} {fs} (write _ _) path side temps = elsewhere fs pid _ path (temps pid)
  Move-others {pid} {fs} (replace {text} _) path side temps =
      elsewhere (put fs sidecar (some text)) pid none path (temps pid)
      ∙ updated-apart fs sidecar (some text) path (λ p. side (sym p))
  Move-others {pid} {fs} (write_fails _) path side temps = elsewhere fs pid _ path (temps pid)
  Move-others {pid} {fs} unlink path side temps = elsewhere fs pid _ path (temps pid)
  Move-others mkdir path side temps = refl
  Move-others close path side temps = refl
  Move-others (fails _) path side temps = refl
  Move-others unlink_fails path side temps = refl

  module _ (injective : (i j : ℕ) → str i ≡ str j → i ≡ j) (before : Files) where
    Step-IsOwn :
        (pc : ℕ → Pc) {pid : ℕ} {fs fs' : Files} {p : Pc}
        → Move str sidecar contents pid fs (pc pid) fs' p
        → ((i : ℕ) → IsOwn (contents i) (fs (temp i)) (pc i))
        → (i : ℕ) → IsOwn (contents i) (fs' (temp i)) (updated pc pid p i)
    Step-IsOwn pc {pid} {fs} {fs'} {p} mv own =
        updated-elim pc pid p (λ i q. IsOwn (contents i) (fs' (temp i)) q) (Move-IsOwn mv (own pid))
          (λ i apart.
            subst (λ file. IsOwn (contents i) file (pc i))
              (sym (Move-apart injective mv i (λ q. apart (sym q)))) (own i))

    Move-whole :
        (pc : ℕ → Pc) {pid : ℕ} {fs fs' : Files} {p : Pc}
        → Move str sidecar contents pid fs (pc pid) fs' p
        → Inv before fs pc
        → (((i : ℕ) → updated pc pid p i ≢ replaced) × (fs' sidecar ≡ before sidecar))
          ⊎ Holder fs' (updated pc pid p)
    Move-whole pc {pid} {p} mv inv =
        let (live, change) = Move-sidecar mv (inv.own pid) in
        elim change [
          | inl (left, same) ↦ elim (inv.whole) [
            | inl (no_one, kept) ↦
                inl
                  (updated-elim pc pid p (λ i q. q ≢ replaced) left (λ i _. no_one i), same ∙ kept)
            | inr (i, ended, held) ↦
                inr (i, updated-apart pc pid p i (λ q. live (ap pc q ∙ ended)) ∙ ended, same ∙ held)
          ]
          | inr (ended, now) ↦ inr (pid, updated-same pc pid p ∙ ended, now)
        ]

    pub Reach-Inv :
        {s : System str sidecar contents}
        → Reach str sidecar contents before s
        → Inv before s.files s.pc
    Reach-Inv start = record {
      own = λ i. tt;
      whole = inl (λ i. ground arith, refl);
      others = λ path side temps. refl;
    }
    Reach-Inv (later {s} r (pick pid mv)) =
        let inv = Reach-Inv r in
        record {
          own = Step-IsOwn s.pc mv inv.own;
          whole = Move-whole s.pc mv inv;
          others = λ path side temps. Move-others mv path side temps ∙ inv.others path side temps;
        }
