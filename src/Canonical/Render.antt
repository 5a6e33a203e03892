-- ===== src/Canonical/Render.antt =====
-- A reference printer: the compact JSON text of a value, with the escapes of RFC 8785. It is written
-- down apart from the code, in front of any text, to say what the strict parser reads back.
use sih26_proto.Common.{
  ℕ, ◌+◌, ◌-◌, ◌≡◌, Bool, true, false, List, [], ◌∷◌, ◌++◌, ltb, nat_beq, if◌then◌else◌,
}
use sih26_proto.Result.{ok}
use sih26_proto.Canonical.Json.{
  Text, Numbers, Value, null, bool, number, string, array, object, Elements, no_elements, element,
  Members, no_members, member,
}
use sih26_proto.Canonical.Scan.{scan_number}
use sih26_proto.Canonical.Parser.{true_text, false_text, null_text, has_key}
use sih26_proto.Canonical.Grammar.{IsUnicode}

-- The lower-case digit of a number below 16.
unfoldable pub hex_of : ℕ → ℕ
hex_of d = if ltb d 10 then 48 + d else 87 + d

unfoldable pub write_unit : ℕ → Text → Text
write_unit c ts =
    if nat_beq c 34
    then 92 ∷ 34 ∷ ts
    else if nat_beq c 92
    then 92 ∷ 92 ∷ ts
    else if nat_beq c 8
    then 92 ∷ 98 ∷ ts
    else if nat_beq c 9
    then 92 ∷ 116 ∷ ts
    else if nat_beq c 10
    then 92 ∷ 110 ∷ ts
    else if nat_beq c 12
    then 92 ∷ 102 ∷ ts
    else if nat_beq c 13
    then 92 ∷ 114 ∷ ts
    else if ltb c 16
    then 92 ∷ 117 ∷ 48 ∷ 48 ∷ 48 ∷ hex_of c ∷ ts
    else if ltb c 32
    then 92 ∷ 117 ∷ 48 ∷ 48 ∷ 49 ∷ hex_of (c - 16) ∷ ts
    else c ∷ ts

unfoldable pub write_units : Text → Text → Text
write_units [] ts = 34 ∷ ts
write_units (c ∷ cs) ts = write_unit c (write_units cs ts)

module _ {N : Type 0} (show : N → Text) where
  -- The texts of a value, of what follows an item, and of what follows a member, each in front of a text.
  unfoldable mutual
    pub write : Value N → Text → Text
    write null ts = null_text ++ ts
    write (bool true) ts = true_text ++ ts
    write (bool false) ts = false_text ++ ts
    write (number n) ts = show n ++ ts
    write (string s) ts = 34 ∷ write_units s ts
    write (array (element v items) named) ts = 91 ∷ write v (write_items items ts)
    write (array _ named) ts = 91 ∷ 93 ∷ ts
    write (object plain symbols (member key v ms)) ts =
        123 ∷ 34 ∷ write_units key (58 ∷ write v (write_members ms ts))
    write (object plain symbols no_members) ts = 123 ∷ 125 ∷ ts
    write _ ts = ts

    pub write_items : Elements N → Text → Text
    write_items (element v items) ts = 44 ∷ write v (write_items items ts)
    write_items _ ts = 93 ∷ ts

    pub write_members : Members N → Text → Text
    write_members (member key v ms) ts =
        44 ∷ 34 ∷ write_units key (58 ∷ write v (write_members ms ts))
    write_members no_members ts = 125 ∷ ts

  module _ ⦃js : Numbers N⦄ where
    -- A number whose text is one of JSON and reads back as the number.
    pub record IsShown (n : N) : Type 0 where
      pub finite : js.is_finite n ≡ true
      pub is_number : scan_number (show n) ≡ ok (show n, [])
      pub reads_back : js.to_number (show n) ≡ n

    -- A value of JSON text whose numbers are shown, whose strings are well-formed and whose objects have
    -- no key twice; the list holds the keys in front of the members.
    mutual
      pub data IsPrintable : Value N → Type 0 where
        shows_null : IsPrintable null
        shows_bool : {b : Bool} → IsPrintable (bool b)
        shows_number : {n : N} → IsShown n → IsPrintable (number n)
        shows_string : {s : Text} → IsUnicode s → IsPrintable (string s)
        shows_array : {items : Elements N} → ArePrintable items → IsPrintable (array items [])
        shows_object : {ms : Members N} → HoldPrintable [] ms → IsPrintable (object true false ms)

      pub data ArePrintable : Elements N → Type 0 where
        none_left : ArePrintable no_elements
        next :
            {v : Value N} {items : Elements N}
            → IsPrintable v
            → ArePrintable items
            → ArePrintable (element v items)

      pub data HoldPrintable : List Text → Members N → Type 0 where
        no_more : {keys : List Text} → HoldPrintable keys no_members
        entry :
            {keys : List Text} {key : Text} {v : Value N} {ms : Members N}
            → has_key keys key ≡ false
            → IsUnicode key
            → IsPrintable v
            → HoldPrintable (key ∷ keys) ms
            → HoldPrintable keys (member key v ms)
