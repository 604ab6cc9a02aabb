-- ===== src/Payload/Lazy.antt =====
-- Values with deferred parts, and `materialize` (framework/lazy_payload.py).
pub mod Built
use functional_tests.Base.{String, Bool, true, false, ◌||◌, if◌then◌else◌}

-- A `Lazy` is given by what its `build` returns. Other objects are atoms.
mutual
  pub data Payload (A : Type 0) : Type 0 where
    atom : A → Payload A
    lazy : Payload A → Payload A
    list tuple : Elements A → Payload A
    dict : Entries A → Payload A

  pub data Elements (A : Type 0) : Type 0 where
    nil : Elements A
    cons : Payload A → Elements A → Elements A

  pub data Entries (A : Type 0) : Type 0 where
    end : Entries A
    entry : String → Payload A → Entries A → Entries A

module _ {A : Type 0} where
  -- The value, and whether it is another object than the one that was given.
  unfoldable mutual
    pub materialize : Payload A → Payload A × Bool
    materialize (atom x) = (atom x, false)
    materialize (lazy p) = ((materialize p).0, true)
    materialize (dict es) =
        let (built, changed) = materialize_entries es in
        if changed then (dict built, true) else (dict es, false)
    materialize (list xs) =
        let (built, changed) = materialize_elements xs in
        if changed then (list built, true) else (list xs, false)
    materialize (tuple xs) =
        let (built, changed) = materialize_elements xs in
        if changed then (tuple built, true) else (tuple xs, false)

    pub materialize_elements : Elements A → Elements A × Bool
    materialize_elements nil = (nil, false)
    materialize_elements (cons x xs) =
        let (y, changed) = materialize x in
        let (ys, later) = materialize_elements xs in (cons y ys, changed || later)

    pub materialize_entries : Entries A → Entries A × Bool
    materialize_entries end = (end, false)
    materialize_entries (entry k x es) =
        let (y, changed) = materialize x in
        let (ys, later) = materialize_entries es in (entry k y ys, changed || later)
