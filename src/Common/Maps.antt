-- ===== src/Common/Maps.antt =====
-- Rust's maps from text to text as lists of entries with one entry for a key, `insert`, `extend` and
-- `remove`; and sets of texts in order.
pub mod Order
pub mod Same
use Prim.Native.Nat.{Ordering}
use Prim.Native.String.{String, compare}
use mathlib.Core.Option.{Option, none, some}
use mathlib.Core.Path.{◌≡◌, refl}
use mathlib.Core.List.{List, [], ◌∷◌}
use native.Mathlib.Omega.{arith}
use text.Mathlib.Text.{◌==◌}
use text.Mathlib.TextEquality.{eq_iff}
use act_web_server_rs.Common.Booleans.{if◌then◌else◌}

abbrev pub Map : Type 0 → Type 0
Map A = List (String × A)

-- the later of two finds
abbrev pub later_or : {A : Type 0} → Option A → Option A → Option A
later_or none b = b
later_or (some a) b = some a

module _ {A : Type 0} where
  -- `map.get(key)`
  unfoldable pub get : String → Map A → Option A
  get key [] = none
  get key ((k, v) ∷ m) = if key == k then some v else get key m

  -- `map.insert(key, value)`
  unfoldable pub insert : String → A → Map A → Map A
  insert key value [] = (key, value) ∷ []
  insert key value ((k, v) ∷ m) = if key == k then (key, value) ∷ m else (k, v) ∷ insert key value m

  -- `map.extend(entries)`
  unfoldable pub extend : Map A → List (String × A) → Map A
  extend m [] = m
  extend m ((k, v) ∷ es) = extend (insert k v m) es

  -- `map.remove(key)`
  unfoldable pub remove : String → Map A → Map A
  remove key [] = []
  remove key ((k, v) ∷ m) = let rest = remove key m in if key == k then rest else (k, v) ∷ rest

  -- the value of the last entry for the key
  abbrev pub last_of : String → List (String × A) → Option A
  last_of key [] = none
  last_of key ((k, v) ∷ es) = later_or (last_of key es) (if key == k then some v else none)

  pub get-insert :
      (j k : String) (v : A) (m : Map A)
      → get j (insert k v m) ≡ (if j == k then some v else get j m)
  unfolding get insert
  get-insert j k v [] = refl
  get-insert j k v ((l, w) ∷ m) =
      ground (arith, get-insert j k v m, eq_iff j k, eq_iff j l, eq_iff k l)

  pub get-extend :
      (j : String) (m : Map A) (es : List (String × A))
      → get j (extend m es) ≡ later_or (last_of j es) (get j m)
  unfolding extend
  get-extend j m [] = refl
  get-extend j m ((k, v) ∷ es) = ground (arith, get-extend j (insert k v m) es, get-insert j k v m)

  pub get-remove :
      (j k : String) (m : Map A) → get j (remove k m) ≡ (if j == k then none else get j m)
  unfolding get remove
  get-remove j k [] = ground arith
  get-remove j k ((l, w) ∷ m) = ground (arith, get-remove j k m, eq_iff j k, eq_iff j l, eq_iff k l)

-- `set.insert(name)` of a `BTreeSet`, kept in order
unfoldable pub add : String → List String → List String
add name [] = name ∷ []
add name (x ∷ xs) =
    let rest = add name xs in
    elim (compare name x) [
      | Ordering.lt ↦ name ∷ x ∷ xs
      | Ordering.eq ↦ x ∷ xs
      | Ordering.gt ↦ x ∷ rest
    ]

-- `names.collect::<BTreeSet<_>>()`
unfoldable pub set_of : List String → List String
unfolding add
set_of [] = []
set_of (name ∷ names) = add name (set_of names)
