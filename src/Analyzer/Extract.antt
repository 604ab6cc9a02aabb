-- ===== src/Analyzer/Extract.antt =====
-- What the analyzer reads out of crash messages and tracebacks (analyzer.py).
pub mod Types
pub mod Tags
use functional_tests.Base.{
  ℕ, String, Bool, true, false, ◌&&◌, ◌||◌, Option, none, some, List, [], ◌∷◌, map, ◌==◌, contains,
  nat_eq, text_eq, string_eq, drop, if◌then◌else◌,
}
use functional_tests.Base.Text.{
  Text, codes, starts_with, has_substring, span, is_space, is_tag_char, is_name_char,
}
use functional_tests.Analyzer.Report.{
  Longrepr, text, other, Phase, TestEntry, phases, has_outcome, failing_phase_info,
}

-- `^([a-zA-Z0-9_.]+):\s`. The class has no colon, so a match takes the whole run.
type_of_match : Text → Text → Text
unfolding nat_eq is_space
type_of_match name (c ∷ d ∷ rest) = if c == b':' && is_space d then name else []
type_of_match name _ = []

unfoldable pub extract_exception_type : Text → Text
unfolding span is_name_char type_of_match
extract_exception_type message =
    let (name, rest) = span is_name_char message in type_of_match name rest

abbrev pub text_or_empty : Option Text → Text
text_or_empty none = []
text_or_empty (some t) = t

-- `phase_info.get("crash", {}).get("message", "")`
abbrev pub crash_message : TestEntry → Text
crash_message t = text_or_empty (failing_phase_info t).message

-- `INFRA_EXCEPTION_NAMES` of infra_exceptions.py
unfoldable pub infra_exception_names : List Text
infra_exception_names = map codes (
    "ConnectionError" ∷ "ConnectionRefusedError" ∷ "ConnectionResetError" ∷ "ConnectionAbortedError"
    ∷ "TimeoutError" ∷ "OSError" ∷ "socket.timeout" ∷ "socket.error"
    ∷ "pymongo.errors.ConnectionFailure" ∷ "pymongo.errors.ServerSelectionTimeoutError"
    ∷ "pymongo.errors.NetworkTimeout" ∷ "pymongo.errors.AutoReconnect"
    ∷ "pymongo.errors.ExecutionTimeout" ∷ "pymongo.errors._OperationCancelled" ∷ [])

unfoldable pub is_infra_message : Text → Bool
is_infra_message message =
    if message == []
    then false
    else let name = extract_exception_type message in
      if name == [] then false else contains infra_exception_names name

unfoldable pub is_infrastructure_error : TestEntry → Bool
unfolding is_infra_message extract_exception_type failing_phase_info
is_infrastructure_error t = is_infra_message (crash_message t)

-- `\[([A-Z_]+)\]` at the head of the text.
unfoldable pub tag_of_match : Text → Text → Option Text
tag_of_match [] _ = none
tag_of_match (a ∷ run) [] = none
tag_of_match (a ∷ run) (c ∷ rest) = if c == b']' then some (a ∷ run) else none

unfoldable pub tag_here : Text → Option Text
tag_here [] = none
tag_here (c ∷ s) =
    let (run, rest) = span is_tag_char s in if c == b'[' then tag_of_match run rest else none

-- `re.search`: the leftmost match.
unfoldable pub search_tag : Text → Text
search_tag [] = []
search_tag (c ∷ s) =
    let later = search_tag s in elim (tag_here (c ∷ s)) [ none ↦ later | some tag ↦ tag ]

abbrev pub xpass_mark : Text
xpass_mark = codes "[XPASS(strict)]"

abbrev pub is_strict_xpass : Option Longrepr → Bool
is_strict_xpass none = false
is_strict_xpass (some other) = false
is_strict_xpass (some (text t)) = has_substring xpass_mark t

unfoldable pub extract_failure_tag : TestEntry → Text
unfolding failing_phase_info
extract_failure_tag t =
    if is_strict_xpass (failing_phase_info t).longrepr
    then codes "XPASS_STRICT"
    else search_tag (crash_message t)

-- `\s*$`, where `$` is the end or stands before a last newline, which `\s` takes too.
unfoldable pub all_space : Text → Bool
unfolding is_space
all_space [] = true
all_space (c ∷ s) = is_space c && all_space s

-- `['"]\)\s*$`
unfoldable pub closes : Text → Bool
unfolding nat_eq all_space
closes (q ∷ p ∷ s) = (q == b'\'' || q == b'"') && p == b')' && all_space s
closes _ = false

-- `(.*?)` up to the first place where the rest matches. A dot takes no newline.
unfoldable pub lazy_group : Text → Option Text
unfolding closes
lazy_group [] = none
lazy_group (c ∷ s) =
    let longer : Option Text = elim (lazy_group s) [ none ↦ none | some g ↦ some (c ∷ g) ] in
    if closes (c ∷ s) then some [] else if c == 10 then none else longer

-- `\s*` takes all the white space: with less, the group begins in white space and ends where it
-- does here, which matches only if this does.
unfoldable pub strip_space : Text → Text
unfolding is_space
strip_space [] = []
strip_space (c ∷ s) = let rest = strip_space s in if is_space c then rest else c ∷ s

abbrev pub skip_mark : Text
skip_mark = codes "Skipped:"

unfoldable pub skip_here : Text → Option Text
unfolding lazy_group strip_space
skip_here s = if starts_with s skip_mark then lazy_group (strip_space (drop 8 s)) else none

-- `re.search`: the leftmost match.
unfoldable pub search_skip : Text → Option Text
unfolding skip_here
search_skip [] = none
search_skip (c ∷ s) =
    let later = search_skip s in
    elim (skip_here (c ∷ s)) [ none ↦ later | some reason ↦ some reason ]

abbrev pub longrepr_reason : Option Longrepr → Option Text
unfolding search_skip
longrepr_reason none = none
longrepr_reason (some other) = none
longrepr_reason (some (text t)) = search_skip t

abbrev pub phase_reason : Option Phase → Option Text
unfolding search_skip has_outcome
phase_reason none = none
phase_reason (some p) = if has_outcome "skipped" (some p) then longrepr_reason p.longrepr else none

unfoldable pub skip_reason_in : List (Option Phase) → Text
unfolding search_skip has_outcome
skip_reason_in [] = []
skip_reason_in (p ∷ ps) =
    let later = skip_reason_in ps in elim (phase_reason p) [ none ↦ later | some reason ↦ reason ]

unfoldable pub extract_skip_reason : TestEntry → Text
unfolding skip_reason_in
extract_skip_reason t = skip_reason_in (phases t)
