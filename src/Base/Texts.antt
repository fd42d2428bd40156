-- ===== src/Base/Texts.antt =====
-- Texts: what the code uses of `strings`, `strconv` and `cmp`, and the order of texts.
use Prim.Native.Nat.{ℕ, zero, suc, ◌+◌, ◌-◌, ◌/◌, ◌%◌, Ordering}
use Prim.Native.Char.{Char, code}
use Prim.Native.String
use Prim.Native.String.compare as text_order
use Prim.Native.String.{String, ◌++◌ as ◌<>◌, slice, len}
use text.Mathlib.TextEquality.{codes_equal}
use mathlib.Core.Path.{◌≡◌, refl}
use mathlib.Core.Bool.{Bool, true, false, ◌&&◌, ◌||◌}
use mathlib.Core.Logic.{◌↔◌}
use cnidaria_cni.Base.Lists.{All}
use mathlib.Core.Option.{Option, none, some}
use mathlib.Core.List.{List, [], ◌∷◌}
use native.Mathlib.Omega.{arith}
use cnidaria_cni.Base.Tests.{if◌then◌else◌, ltb, leb, ◌==◌, nat_eq}
use cnidaria_cni.Base.Sorting.{le_by, IsOrder, IsLinear}

-- `strings.Join`
unfoldable pub join : List String → String → String
join [] sep = ""
join (s ∷ []) sep = s
join (s ∷ t ∷ rest) sep = s <> (sep <> join (t ∷ rest) sep)

-- The errors that are there.
unfoldable pub present : List (Option String) → List String
present [] = []
present (none ∷ es) = present es
present (some e ∷ es) = e ∷ present es

abbrev joined : List String → Option String
joined [] = none
joined (e ∷ es) = some (join (e ∷ es) "\n")

-- `errors.Join`, with the text it prints.
unfoldable pub join_errors : List (Option String) → Option String
unfolding present join
join_errors es = joined (present es)

-- There is no error exactly if none of them is there.
pub join_errors_iff :
    (es : List (Option String)) → (join_errors es ≡ none) ↔ All (λ (e : Option String). e ≡ none) es
unfolding join_errors
join_errors_iff [] = (λ h. tt, λ h. refl)
join_errors_iff (none ∷ es) =
    let rest = join_errors_iff es in (λ h. (refl, rest.0 h), λ h. rest.1 h.1)
join_errors_iff (some e ∷ es) = (λ h. cc, λ h. absurd (ground arith))

-- The character of a digit in a base up to 16.
unfoldable pub digit : ℕ → String
digit d = slice "0123456789abcdef" d (d + 1)

unfoldable pub in_base : ℕ → ℕ → ℕ → String
unfolding digit
in_base zero base n = digit (n % base)
in_base (suc fuel) base n =
    let more = in_base fuel base (n / base) <> digit (n % base) in
    if ltb n base then digit n else more

-- `strconv.Itoa` on a number that is not negative: a number has at most as many digits as it counts.
unfoldable pub itoa : ℕ → String
unfolding in_base
itoa n = in_base n 10 n

-- A number in hexadecimal with no leading zeros.
unfoldable pub hex : ℕ → String
unfolding in_base
hex n = in_base n 16 n

abbrev pub single_char : Char → String
single_char c = String.◌∷◌ c ""

two_hex : ℕ → String
unfolding digit
two_hex n = digit (n / 16) <> digit (n % 16)

-- One character under `%q`.
quote_char : Char → String
unfolding two_hex
quote_char c =
    let n = code c in
    if n == b'"'
    then "\\\""
    else if n == b'\\'
    then "\\\\"
    else if n == 7
    then "\\a"
    else if n == 8
    then "\\b"
    else if n == 12
    then "\\f"
    else if n == 10
    then "\\n"
    else if n == 13
    then "\\r"
    else if n == 9
    then "\\t"
    else if n == 11
    then "\\v"
    else if ltb n 32 || n == 127
    then "\\x" <> two_hex n
    else single_char c

quote_chars : String → String
unfolding quote_char
quote_chars String.[] = ""
quote_chars (String.◌∷◌ c s) = quote_char c <> quote_chars s

-- `%q`: `strconv.Quote`, where every character above 127 is taken to be printable.
unfoldable pub quote : String → String
unfolding quote_chars
quote s = "\"" <> (quote_chars s <> "\"")

lower_from : ℕ → String → String
lower_from n s =
    if leb b'A' n && leb n b'Z' then slice "abcdefghijklmnopqrstuvwxyz" (n - 65) (n - 64) else s

-- `strings.ToLower` on ASCII.
unfoldable pub to_lower : String → String
unfolding lower_from
to_lower String.[] = ""
to_lower (String.◌∷◌ c s) = lower_from (code c) (single_char c) <> to_lower s

is_space : Char → Bool
is_space c = let n = code c in (leb 9 n && leb n 13) || n == 32 || n == 133 || n == 160

unfoldable pub trim_left : String → String
unfolding is_space
trim_left String.[] = ""
trim_left (String.◌∷◌ c s) = let rest = trim_left s in if is_space c then rest else String.◌∷◌ c s

-- All of a text but the blanks it ends in.
unfoldable pub trim_right : String → String
unfolding is_space
trim_right String.[] = ""
trim_right (String.◌∷◌ c s) =
    let rest = trim_right s in
    if is_space c
    then (elim rest [ String.[] ↦ "" | String.◌∷◌ d t ↦ String.◌∷◌ c (String.◌∷◌ d t) ])
    else String.◌∷◌ c rest

-- `strings.TrimSpace` on ASCII and Latin-1.
unfoldable pub trim_space : String → String
unfolding trim_left trim_right
trim_space s = trim_right (trim_left s)

-- Comparing by one key, and by a second where the first is equal.
abbrev pub then_by : Ordering → Ordering → Ordering
then_by first second = elim first [ Ordering.eq ↦ second | other ↦ other ]

compare-total : (s t : String) → le_by String.compare s t ≡ false → le_by String.compare t s ≡ true
compare-total String.[] String.[] h = refl
compare-total String.[] (String.◌∷◌ d t) h = ground (arith, text_order.nil-cons d t)
compare-total (String.◌∷◌ c s) String.[] h = ground (arith, text_order.nil-cons c s)
compare-total (String.◌∷◌ c s) (String.◌∷◌ d t) h =
    ground (arith, text_order.cons-cons c d s t, text_order.cons-cons d c t s, compare-total s t)

compare_trans :
    (s t u : String)
    → le_by String.compare s t ≡ true
    → le_by String.compare t u ≡ true
    → le_by String.compare s u ≡ true
compare_trans String.[] t String.[] p q = refl
compare_trans String.[] t (String.◌∷◌ d u) p q = ground (arith, text_order.nil-cons d u)
compare_trans (String.◌∷◌ c s) String.[] u p q = ground (arith, text_order.cons-nil c s)
compare_trans (String.◌∷◌ c s) (String.◌∷◌ d t) String.[] p q =
    ground (arith, text_order.cons-nil d t)
compare_trans (String.◌∷◌ c s) (String.◌∷◌ d t) (String.◌∷◌ f u) p q = ground (
  arith,
  text_order.cons-cons c d s t,
  text_order.cons-cons d f t u,
  text_order.cons-cons c f s u,
  compare_trans s t u,
)

compare_antisymm :
    (s t : String) → le_by String.compare s t ≡ true → le_by String.compare t s ≡ true → s ≡ t
compare_antisymm String.[] String.[] p q = refl
compare_antisymm String.[] (String.◌∷◌ d t) p q = ground (arith, text_order.cons-nil d t)
compare_antisymm (String.◌∷◌ c s) String.[] p q = ground (arith, text_order.cons-nil c s)
compare_antisymm (String.◌∷◌ c s) (String.◌∷◌ d t) p q = ground (
  arith,
  text_order.cons-cons c d s t,
  text_order.cons-cons d c t s,
  compare_antisymm s t,
  codes_equal c d,
)

-- `strings.Compare` is a linear order.
pub compare-IsLinear : IsLinear String.compare
compare-IsLinear = record {
  order = record { total = compare-total; trans = compare_trans };
  antisymm = compare_antisymm;
}

pub compare-IsOrder : IsOrder String.compare
compare-IsOrder = record { total = compare-total; trans = compare_trans }

-- Comparing by a key.
pub IsOrder-key {ℓ κ} :
    {A : Type ℓ} {B : Type κ} (key : A → B) (cmp : B → B → Ordering)
    → IsOrder cmp
    → IsOrder (λ a b. cmp (key a) (key b))
IsOrder-key key cmp order = record {
  total = λ a b. order.total (key a) (key b);
  trans = λ a b c. order.trans (key a) (key b) (key c);
}

texts : (itoa 30000 ≡ "30000") × (hex 8193 ≡ "2001") × (quote "a\"b" ≡ "\"a\\\"b\"")
unfolding itoa hex quote
texts = (refl, refl, refl)

more_texts : (to_lower "SCTP" ≡ "sctp") × (trim_space "  tcp dport 80 " ≡ "tcp dport 80")
unfolding to_lower trim_space
more_texts = (refl, refl)
