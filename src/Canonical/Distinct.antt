-- ===== src/Canonical/Distinct.antt =====
-- Objects without a key twice.
use sih26_proto.Common.{◌≡◌, false, List, [], ◌∷◌, list_eq, nat_eq}
use sih26_proto.Canonical.Json.{
  Text, Value, array, object, Elements, no_elements, hole, element, Members, no_members, member,
}
use sih26_proto.Canonical.Parser.{has_key}

module _ {N : Type 0} where
  abbrev pub keys_of : Members N → List Text
  keys_of no_members = []
  keys_of (member key v ms) = key ∷ keys_of ms

  -- No object inside has a key twice.
  unfoldable mutual
    pub HasDistinctKeys : Value N → Type 0
    HasDistinctKeys (array items named) = HaveDistinctKeys items
    HasDistinctKeys (object plain symbols ms) = AreDistinct ms
    HasDistinctKeys _ = Unit

    pub HaveDistinctKeys : Elements N → Type 0
    HaveDistinctKeys no_elements = Unit
    HaveDistinctKeys (hole items) = HaveDistinctKeys items
    HaveDistinctKeys (element v items) = HasDistinctKeys v × HaveDistinctKeys items

    pub AreDistinct : Members N → Type 0
    AreDistinct no_members = Unit
    AreDistinct (member key v ms) =
        (has_key (keys_of ms) key ≡ false) × HasDistinctKeys v × AreDistinct ms
