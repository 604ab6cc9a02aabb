-- ===== src/Session/Sidecar/Whole.antt =====
-- What the analyzer reads while processes write, the temporary files, and that no process waits.
use functional_tests.Base.{
  ℕ, ◌≡◌, ◌≢◌, ◌⊎◌, inl, inr, refl, sym, ap, subst, ◌∙◌, true, Option, none, some, nat_eq, text_eq,
  arith,
}
use functional_tests.Base.Dict.{Dict}
use functional_tests.Base.Text.{Text}
use functional_tests.Base.Family.{updated-same, updated-apart}
use functional_tests.Session.Sidecar.{
  Files, put, sidecar_path, Pc, started, made, writing, written, replaced, warned, in_try,
  temp_path, Move, mkdir, create, write, close, replace, System, pick, Run, stay, go_on, Reach,
  later, Json, dict, load_deselected, data_of, data_or_empty,
}
use functional_tests.Session.Sidecar.Paths.{temp_path_apart}
use functional_tests.Session.Sidecar.Invariant.{Reach-Inv, IsOwn, Inv}
use mathlib.Core.List.{append-nil}

load-some :
    {K V : Type 0} (parse : Text → Option (Json K V)) (files : Files) (report text : Text)
    (d : Dict K V)
    → files (sidecar_path report) ≡ some text
    → parse text ≡ some (dict d)
    → load_deselected parse true files report ≡ d
unfolding load_deselected data_of data_or_empty
load-some parse files report text d found parsed =
    ap (data_of parse true) found ∙ ap data_or_empty parsed

load-eq :
    {K V : Type 0} (parse : Text → Option (Json K V)) (files before : Files) (report : Text)
    → files (sidecar_path report) ≡ before (sidecar_path report)
    → load_deselected parse true files report ≡ load_deselected parse true before report
unfolding load_deselected data_of data_or_empty
load-eq parse files before report same = ap (data_of parse true) same

module _ (str : ℕ → Text) (injective : (i j : ℕ) → str i ≡ str j → i ≡ j) where
  -- Where pids are written distinctly, the sidecar can be read and all processes write texts that
  -- parse to the reasons `d`, the analyzer reads at any moment what it read before the run or `d`,
  -- never a part of it, and `d` as soon as one process has replaced the sidecar.
  pub load_deselected_lem :
      {K V : Type 0} (parse : Text → Option (Json K V)) (report : Text) (contents : ℕ → Text)
      (d : Dict K V)
      → ((i : ℕ) → parse (contents i) ≡ some (dict d))
      → {before : Files} {s : System str (sidecar_path report) contents}
      → Reach str (sidecar_path report) contents before s
      → ((load_deselected parse true s.files report ≡ load_deselected parse true before report)
          ⊎ (load_deselected parse true s.files report ≡ d))
        × ((i : ℕ) → s.pc i ≡ replaced → load_deselected parse true s.files report ≡ d)
  load_deselected_lem parse report contents d parsed {before} {s} r =
      let inv = Reach-Inv str (sidecar_path report) contents injective before r in
      elim (inv.whole) [
        | inl (no_one, kept) ↦
            (inl (load-eq parse s.files before report kept), λ i ended. absurd (no_one i ended))
        | inr (i, _, held) ↦
            let whole = load-some parse s.files report (contents i) d held (parsed i) in
            (inr whole, λ _ _. whole)
      ]

module _ (str : ℕ → Text) (injective : (i j : ℕ) → str i ≡ str j → i ≡ j) (sidecar : Text)
    (contents : ℕ → Text) (before : Files) where
  -- Where pids are written distinctly, no temporary file of a process at its end is left, if `unlink`
  -- has not raised, and no file is changed but the sidecar and the temporary files.
  pub temp_path-none :
      {s : System str sidecar contents}
      → Reach str sidecar contents before s
      → ((i : ℕ)
          → (s.pc i ≡ replaced) ⊎ (s.pc i ≡ warned)
          → s.files (temp_path str sidecar i) ≡ none)
        × ((path : Text)
            → path ≢ sidecar
            → ((i : ℕ) → path ≢ temp_path str sidecar i)
            → s.files path ≡ before path)
  temp_path-none {s} r = (
    λ i ended. elim ended [
      | inl e ↦ subst (IsOwn (contents i) (s.files (temp_path str sidecar i))) e (inv.own i)
      | inr e ↦ subst (IsOwn (contents i) (s.files (temp_path str sidecar i))) e (inv.own i)
    ],
    inv.others,
  )
    where
      inv : Inv str sidecar contents before s.files s.pc
      inv = Reach-Inv str sidecar contents injective before r

  -- The process can end from here by steps of its own, with the sidecar as it means to write it, and
  -- then the others are where they were.
  abbrev Ends : ℕ → System str sidecar contents → Type 0
  Ends pid s =
      (t : System str sidecar contents) × Run str sidecar contents pid s t
      × (t.pc pid ≡ replaced)
      × (t.files sidecar ≡ some (contents pid))
      × ((j : ℕ) → pid ≢ j → t.pc j ≡ s.pc j)

  then-Ends :
      {s : System str sidecar contents} {pid : ℕ} {p : Pc} {p' : Pc} {fs : Files}
      → Reach str sidecar contents before s
      → s.pc pid ≡ p
      → Move str sidecar contents pid s.files p fs p'
      → ((u : System str sidecar contents)
          → Reach str sidecar contents before u
          → u.pc pid ≡ p'
          → Ends pid u)
      → Ends pid s
  then-Ends {s} {pid} {p'} {fs} r at mv next =
      let moved = subst (λ q. Move str sidecar contents pid s.files q fs p') (sym at) mv in
      let (t, run, ended, held, rest) =
        next _ (later r (pick pid moved)) (updated-same s.pc pid p') in
      (t, go_on moved run, ended, held, λ j apart. rest j apart ∙ updated-apart s.pc pid p' j apart)

  Ends-written :
      {s : System str sidecar contents} {pid : ℕ}
      → Reach str sidecar contents before s
      → s.pc pid ≡ written
      → Ends pid s
  Ends-written {s} {pid} r at = (
    _,
    go_on
        (subst
          (λ q.
            Move str sidecar contents pid s.files q
              (put (put s.files sidecar (some (contents pid))) (temp_path str sidecar pid) none)
              replaced)
          (sym at) (replace found))
        stay,
    updated-same s.pc pid replaced,
    updated-apart (put s.files sidecar (some (contents pid))) (temp_path str sidecar pid) none
          sidecar (λ e. temp_path_apart str sidecar pid (sym e))
        ∙ updated-same s.files sidecar (some (contents pid)),
    updated-apart s.pc pid replaced,
  )
    where
      found : s.files (temp_path str sidecar pid) ≡ some (contents pid)
      found =
          subst (IsOwn (contents pid) (s.files (temp_path str sidecar pid))) at
            ((Reach-Inv str sidecar contents injective before r).own pid)

  Ends-writing :
      {s : System str sidecar contents} {pid : ℕ} {rest : Text}
      → Reach str sidecar contents before s
      → s.pc pid ≡ writing rest
      → Ends pid s
  Ends-writing {rest} r at =
      then-Ends r at (write rest (sym (append-nil rest)))
        (λ _ r' at'. then-Ends r' at' close (λ _. Ends-written))

  -- Where pids are written distinctly, a process in the `try` block of any reachable state has steps
  -- of its own that lead from that state to its end, whatever the others wait for: the sidecar then
  -- holds what the process writes, and every other process is where it was.
  pub Reach-replaced :
      {s : System str sidecar contents} {pid : ℕ}
      → Reach str sidecar contents before s
      → in_try (s.pc pid) ≡ true
      → (t : System str sidecar contents) × Run str sidecar contents pid s t
        × (t.pc pid ≡ replaced)
        × (t.files sidecar ≡ some (contents pid))
        × ((j : ℕ) → pid ≢ j → t.pc j ≡ s.pc j)
  Reach-replaced {s} {pid} r within = go (s.pc pid) refl within
    where
      go : (p : Pc) → s.pc pid ≡ p → in_try p ≡ true → Ends pid s
      go started at _ =
          then-Ends r at mkdir (λ _ r' at'. then-Ends r' at' create (λ _. Ends-writing))
      go made at _ = then-Ends r at create (λ _. Ends-writing)
      go (writing rest) at _ = Ends-writing r at
      go written at _ = Ends-written r at
      go _ at within = absurd (ground (arith, within))
