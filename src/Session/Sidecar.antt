-- ===== src/Session/Sidecar.antt =====
-- `_write_deselected_sidecar` of conftest.py, run by any number of processes at the same time, and
-- `_load_deselected` of analyzer.py. A process is known by its pid; `str` of a pid is a parameter.
-- The report's path is one that `Path` leaves as it is.
pub mod Paths
pub mod Invariant
pub mod Whole
pub mod Counted
use functional_tests.Base.{
  ℕ, ◌≡◌, Bool, true, false, not, ◌||◌, Option, none, some, List, [], ◌∷◌, ◌++◌, text_eq, nat_eq,
  if◌then◌else◌,
}
use functional_tests.Base.Dict.{Dict}
use functional_tests.Base.Text.{Text, codes}
use functional_tests.Base.Family.{updated}

-- The files by their paths.
abbrev pub Files : Type 0
Files = Text → Option Text

abbrev pub put : Files → Text → Option Text → Files
put = updated

abbrev pub sidecar_path : Text → Text
sidecar_path report_path = report_path ++ codes ".deselected.json"

-- The path of the sidecar, or `none` where the function returns at once: `json_report_file` is set
-- also without the plugin, and an empty path is none.
unfoldable pub wanted : Bool → Text → Option Text
wanted json_report [] = none
wanted json_report (c ∷ path) = if json_report then some (sidecar_path (c ∷ path)) else none

-- Where a process is: before `mkdir`, before `open`, with the rest that `json.dump` has to write,
-- before `os.replace`, at the end of the `try`, in the handler, and at its two ends: the warning is
-- given, or `unlink` has raised.
pub data Pc : Type 0 where
  started : Pc
  made : Pc
  writing : Text → Pc
  written : Pc
  replaced : Pc
  failed : Pc
  warned : Pc
  raised : Pc

-- In the `try` block, where an `OSError` is caught.
abbrev pub in_try : Pc → Bool
in_try started = true
in_try made = true
in_try (writing _) = true
in_try written = true
in_try _ = false

abbrev pub or_empty : Option Text → Text
or_empty none = []
or_empty (some s) = s

abbrev pub temp_path : (ℕ → Text) → Text → ℕ → Text
temp_path str sidecar pid = sidecar ++ (codes "." ++ (str pid ++ codes ".tmp"))

module _ (str : ℕ → Text) (sidecar : Text) (contents : ℕ → Text) where
  -- A step of the process `pid`: from the files and its place to those after it. `write` appends a
  -- chunk of any size, `fails` is an `OSError` of the next call in the `try` block, and
  -- `write_fails` one of a write or of the `close`, which may leave any text in the file.
  pub data Move (pid : ℕ) (fs : Files) : Pc → Files → Pc → Type 0 where
    mkdir : Move pid fs started fs made
    create :
        Move pid fs made (put fs (temp_path str sidecar pid) (some [])) (writing (contents pid))
    write :
        (chunk : Text) {rest text : Text}
        → text ≡ chunk ++ rest
        → Move pid fs
            (writing text)
            (put fs
              (temp_path str sidecar pid)
              (some (or_empty (fs (temp_path str sidecar pid)) ++ chunk)))
            (writing rest)
    write_fails :
        {text : Text} (partial : Text)
        → Move pid fs (writing text) (put fs (temp_path str sidecar pid) (some partial)) failed
    close : Move pid fs (writing []) fs written
    replace :
        {text : Text}
        → fs (temp_path str sidecar pid) ≡ some text
        → Move pid fs written
            (put (put fs sidecar (some text)) (temp_path str sidecar pid) none)
            replaced
    fails : {p : Pc} → in_try p ≡ true → Move pid fs p fs failed
    unlink : Move pid fs failed (put fs (temp_path str sidecar pid) none) warned
    unlink_fails : Move pid fs failed fs raised

  pub record System : Type 0 where
    pub files : Files
    pub pc : ℕ → Pc

  -- Any process takes the next step.
  pub data Step (s : System) : System → Type 0 where
    pick :
        (pid : ℕ) {fs : Files} {p : Pc}
        → Move pid s.files (s.pc pid) fs p
        → Step s (record { files = fs; pc = updated s.pc pid p })

  -- Steps of the process `pid` alone, that lead from the first state to the second.
  pub data Run (pid : ℕ) : System → System → Type 0 where
    stay : {s : System} → Run pid s s
    go_on :
        {s t : System} {fs : Files} {p : Pc}
        → Move pid s.files (s.pc pid) fs p
        → Run pid (record { files = fs; pc = updated s.pc pid p }) t
        → Run pid s t

  -- From files of any kind, with a sidecar and temporary files of earlier runs.
  pub data Reach (before : Files) : System → Type 0 where
    start : Reach before (record { files = before; pc = λ _. started })
    later : {s t : System} → Reach before s → Step s t → Reach before t

-- What a text parses to, with `none` for the `ValueError`.
pub data Json (K V : Type 0) : Type 0 where
  dict : Dict K V → Json K V
  other : Json K V

unfoldable pub data_or_empty : {K V : Type 0} → Option (Json K V) → Dict K V
data_or_empty none = []
data_or_empty (some other) = []
data_or_empty (some (dict d)) = d

-- `opens` tells that a file that exists can be read.
unfoldable pub data_of : {K V : Type 0} → (Text → Option (Json K V)) → Bool → Option Text → Dict K V
unfolding data_or_empty
data_of parse opens none = []
data_of parse opens (some text) = if opens then data_or_empty (parse text) else []

unfoldable pub load_deselected :
    {K V : Type 0} → (Text → Option (Json K V)) → Bool → Files → Text → Dict K V
unfolding data_of
load_deselected parse opens files json_report_path =
    data_of parse opens (files (sidecar_path json_report_path))
