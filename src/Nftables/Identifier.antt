-- ===== src/Nftables/Identifier.antt =====
-- internal/nftables/render.go: names of sets and chains from the names of Kubernetes objects.
pub mod Injective
pub mod Begins
use Prim.Native.Char.{Char, code}
use Prim.Native.String
use Prim.Native.String.{len, slice}
use cnidaria_cni.Base.{
  ℕ, ◌-◌, String, ◌<>◌, Bool, true, false, ◌&&◌, ◌||◌, List, [], ◌∷◌, if◌then◌else◌, ltb, leb, ◌==◌,
  nat_eq, Result, ok, err, ◌>>◌, guard, join, quote,
}

abbrev pub identifier_max_len : ℕ
identifier_max_len = 255

abbrev pub identifier_hash_len : ℕ
identifier_hash_len = 12

-- The class `[A-Za-z0-9_.-]` of `identifierPart`.
unfoldable pub part_char : Char → Bool
part_char c =
    let n = code c in
    (leb b'A' n && leb n b'Z')
    || (leb b'a' n && leb n b'z')
    || (leb b'0' n && leb n b'9')
    || n == b'_'
    || n == b'.'
    || n == b'-'

unfoldable pub part_chars : String → Bool
unfolding part_char
part_chars String.[] = true
part_chars (String.◌∷◌ c s) = part_char c && part_chars s

-- `identifierPart.MatchString`
unfoldable pub is_part : String → Bool
unfolding part_chars
is_part String.[] = false
is_part (String.◌∷◌ c s) = part_chars (String.◌∷◌ c s)

unfoldable pub check_parts : List String → Result String (Unit {0})
unfolding is_part quote
check_parts [] = ok tt
check_parts (part ∷ rest) = do
  guard (is_part part) (
      "nftables: "
      <> (quote part <> " cannot be used in an nftables name: letters, digits, _ . - only"))
  check_parts rest

-- `hex.EncodeToString` of the SHA-256 of a text, 64 digits.
module _ (sha256_hex : String → String) where
  -- `fold`
  unfoldable pub fold : String → String
  fold id =
      let tag = slice (sha256_hex id) 0 identifier_hash_len in
      slice id 0 (identifier_max_len - len tag - 1) <> ("/" <> tag)

  -- `Identifier`
  unfoldable pub identifier : String → List String → Result String String
  unfolding fold check_parts join
  identifier prefix [] = err "nftables: an identifier needs a name"
  identifier prefix (part ∷ parts) = do
    check_parts (part ∷ parts)
    let id = prefix <> join (part ∷ parts) "/"
    ok (if ltb identifier_max_len (len id) then fold id else id)
