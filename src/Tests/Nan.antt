-- ===== src/Tests/Nan.antt =====
-- A response with NaN.
use functional_tests.Base.{◌≡◌, refl, Bool, true, false, some, string_eq, nat_eq}
use functional_tests.Bson.{Value, atom, list, dict, Items, nil, cons, end, field, get}
use functional_tests.Assertions.{first_batch}
use functional_tests.Assertions.Nan.{IsTidy}
use functional_tests.Tests.Bson.{Atom, integer, string, nan, host}

abbrev is_nan : Atom → Bool
is_nan nan = true
is_nan _ = false

abbrev sorted : Items Atom → Items Atom
sorted xs = xs

abbrev marker : Atom
marker = string "__NaN__"

abbrev docs : Value Atom
docs = list (cons (dict (field "x" (atom nan) (field "n" (atom (integer 1)) end))) nil)

abbrev reply : Value Atom
reply = dict (field "cursor" (dict (field "firstBatch" docs end)) end)

reply_batch : first_batch reply ≡ some docs
unfolding first_batch get string_eq
reply_batch = refl

marked : host.eq marker marker ≡ true
unfolding string_eq
marked = refl

docs-IsTidy : IsTidy host is_nan marker sorted docs
unfolding string_eq nat_eq
docs-IsTidy = ((refl, (λ h. cc), (refl, (λ h. refl), tt)), tt)
