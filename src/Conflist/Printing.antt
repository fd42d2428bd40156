-- ===== src/Conflist/Printing.antt =====
-- internal/conflist/conflist.go: the document as `json.MarshalIndent` prints it, with two spaces.
use Prim.Native.Char.{Char, code}
use cnidaria_cni.Base.{
  ℕ, zero, suc, ◌/◌, ◌%◌, String, ◌<>◌, Bool, true, false, List, [], ◌∷◌, ◌++◌, map, if◌then◌else◌,
  ltb, ◌==◌, nat_eq, Result, ok, ◌>>=◌, itoa, digit, single_char, join,
}
use cnidaria_cni.Conflist.{
  Document, HostLocalRange, HostLocalIpam, Plugin, bridge_plugin, portmap_plugin, Params, render,
}

-- `\u00` and two digits.
low_escape : ℕ → String
unfolding digit
low_escape n = "\\u00" <> (digit (n / 16) <> digit (n % 16))

-- One character of a text in JSON, where `<`, `>` and `&` are escaped for HTML.
json_char : Char → String
unfolding low_escape
json_char c =
    let n = code c in
    if n == b'"'
    then "\\\""
    else if n == b'\\'
    then "\\\\"
    else if n == 8
    then "\\b"
    else if n == 12
    then "\\f"
    else if n == 10
    then "\\n"
    else if n == 13
    then "\\r"
    else if n == 9
    then "\\t"
    else if ltb n 32
    then low_escape n
    else if n == b'<'
    then low_escape n
    else if n == b'>'
    then low_escape n
    else if n == b'&'
    then low_escape n
    else if n == 8232
    then "\\u2028"
    else if n == 8233
    then "\\u2029"
    else single_char c

json_chars : String → String
unfolding json_char
json_chars String.[] = ""
json_chars (String.◌∷◌ c s) = json_char c <> json_chars s

unfoldable pub json_text : String → String
unfolding json_chars
json_text s = "\"" <> (json_chars s <> "\"")

unfoldable pub json_bool : Bool → String
json_bool true = "true"
json_bool false = "false"

-- The line end and the indentation of a depth.
unfoldable pub line_at : ℕ → String
line_at depth = "\n" <> spaces depth
  where
    spaces : ℕ → String
    spaces zero = ""
    spaces (suc n) = "  " <> spaces n

-- Printed parts between brackets, one on each line.
unfoldable pub enclosed : String → String → ℕ → List String → String
unfolding line_at join
enclosed left right depth [] = left <> right
enclosed left right depth (part ∷ parts) =
    left
    <> (line_at (suc depth)
        <> (join (part ∷ parts) ("," <> line_at (suc depth)) <> (line_at depth <> right)))

abbrev field : String → String → String
unfolding json_text
field name value = json_text name <> (": " <> value)

-- The element of a range set, of the ranges and of the plugins at a depth.
unfoldable pub range_text : ℕ → HostLocalRange → String
unfolding enclosed field json_text
range_text depth r = enclosed "{" "}" depth (field "subnet" (json_text r.subnet) ∷ [])

unfoldable pub range_set_text : ℕ → List HostLocalRange → String
unfolding enclosed range_text
range_set_text depth rs = enclosed "[" "]" depth (map (range_text (suc depth)) rs)

unfoldable pub ipam_text : ℕ → HostLocalIpam → String
unfolding enclosed field json_text range_set_text
ipam_text depth i = enclosed "{" "}" depth (
    field "type" (json_text i.type)
    ∷ field "ranges"
        (enclosed "[" "]" (suc depth) (map (range_set_text (suc (suc depth))) i.ranges))
    ∷ [])

capability_text : String × Bool → String
unfolding field json_text json_bool
capability_text (name, value) = field name (json_bool value)

-- The MTU is left out if it is zero.
abbrev mtu_field : ℕ → List String
unfolding field json_text itoa
mtu_field mtu = if mtu == 0 then [] else field "mtu" (itoa mtu) ∷ []

unfoldable pub plugin_text : ℕ → Plugin → String
unfolding enclosed field json_text json_bool ipam_text mtu_field capability_text itoa
plugin_text depth (bridge_plugin type bridge is_default_gateway hairpin_mode mtu ipam) =
    enclosed "{" "}" depth (
      field "type" (json_text type)
      ∷ field "bridge" (json_text bridge)
      ∷ field "isDefaultGateway" (json_bool is_default_gateway)
      ∷ field "hairpinMode" (json_bool hairpin_mode)
      ∷ (mtu_field mtu ++ (field "ipam" (ipam_text (suc depth) ipam) ∷ [])))
plugin_text depth (portmap_plugin type capabilities) = enclosed "{" "}" depth (
    field "type" (json_text type)
    ∷ field "capabilities" (enclosed "{" "}" (suc depth) (map capability_text capabilities))
    ∷ [])

-- `json.MarshalIndent(doc, "", "  ")`, which cannot fail on a document.
unfoldable pub document_text : Document → String
unfolding enclosed field json_text plugin_text
document_text doc = enclosed "{" "}" 0 (
    field "cniVersion" (json_text doc.cni_version)
    ∷ field "name" (json_text doc.name)
    ∷ field "plugins" (enclosed "[" "]" 1 (map (plugin_text 2) doc.plugins))
    ∷ [])

-- `Render`
unfoldable pub render_text : Params → Result String String
unfolding render document_text
render_text p = do doc ← render p; ok (document_text doc <> "\n")
