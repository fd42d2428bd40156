-- ===== src/Nftables/Identifier/Injective.antt =====
-- Two objects never share an identifier that was not folded.
use Prim.Native.Char.{Char, char, code}
use mathlib.Core.Path.{subst, ap₂}
use Prim.Native.String.{len, slice}
use text.Mathlib.TextLemmas.{
  nil-append, cons-append, append_cancel_left, head-eq_of_cons-eq, tail-eq_of_cons-eq,
}
use text.Mathlib.TextPositions.{len-append}
use cnidaria_cni.Base.{
  len-slice, ◌-◌, ◌≤◌, String, ◌<>◌, ◌≡◌, refl, sym, ap, ◌∙◌, ◌≢◌, true, List, [], ◌∷◌, All, arith,
  ok, >>=-eq-ok, join,
}
use cnidaria_cni.Nftables.Identifier.{part_char, part_chars, is_part, check_parts, fold, identifier}

-- A text with no slash in it.
abbrev pub NoSlash : String → Type 0
NoSlash String.[] = Unit
NoSlash (String.◌∷◌ c s) = (code c ≢ b'/') × NoSlash s

part_chars-NoSlash : (s : String) → part_chars s ≡ true → NoSlash s
unfolding part_chars part_char
part_chars-NoSlash String.[] h = tt
part_chars-NoSlash (String.◌∷◌ c s) h = (ground arith, part_chars-NoSlash s (ground arith))

is_part-NoSlash : (s : String) → is_part s ≡ true → NoSlash s
unfolding is_part
is_part-NoSlash String.[] h = tt
is_part-NoSlash (String.◌∷◌ c s) h = part_chars-NoSlash (String.◌∷◌ c s) h

check_parts-NoSlash : (ps : List String) → check_parts ps ≡ ok tt → All NoSlash ps
unfolding check_parts
check_parts-NoSlash [] h = tt
check_parts-NoSlash (p ∷ ps) h =
    (is_part-NoSlash p (ground arith), check_parts-NoSlash ps (ground arith))

abbrev slash : Char
slash = char b'/' tt

slash-append : (u : String) → "/" <> u ≡ String.◌∷◌ slash u
slash-append u = cons-append slash "" u ∙ ap (String.◌∷◌ slash) (nil-append u)

-- A text is cut at its first slash in one way.
cut_unique :
    (s t u v : String)
    → NoSlash s
    → NoSlash t
    → s <> String.◌∷◌ slash u ≡ t <> String.◌∷◌ slash v
    → (s ≡ t) × (u ≡ v)
cut_unique String.[] String.[] u v hs ht e =
    (refl, tail-eq_of_cons-eq (sym (nil-append _) ∙ e ∙ nil-append _))
cut_unique String.[] (String.◌∷◌ d t) u v hs (hd, ht) e =
    let heads : slash ≡ d = head-eq_of_cons-eq (sym (nil-append _) ∙ e ∙ cons-append d t _) in
    absurd (hd (sym (ap code heads)))
cut_unique (String.◌∷◌ c s) String.[] u v (hc, hs) ht e =
    let heads : c ≡ slash = head-eq_of_cons-eq (sym (cons-append c s _) ∙ e ∙ nil-append _) in
    absurd (hc (ap code heads))
cut_unique (String.◌∷◌ c s) (String.◌∷◌ d t) u v (hc, hs) (hd, ht) e =
    let whole = sym (cons-append c s _) ∙ e ∙ cons-append d t _ in
    let (rest, after) = cut_unique s t u v hs ht (tail-eq_of_cons-eq whole) in
    (cc (head-eq_of_cons-eq whole, rest), after)

NoSlash-append : (s u : String) → NoSlash (s <> String.◌∷◌ slash u) → ⊥
NoSlash-append String.[] u h = (rw (nil-append (String.◌∷◌ slash u)) at h).0 refl
NoSlash-append (String.◌∷◌ c s) u h =
    NoSlash-append s u (rw (cons-append c s (String.◌∷◌ slash u)) at h).1

join-cons :
    (p q : String) (rest : List String)
    → join (p ∷ q ∷ rest) "/" ≡ p <> String.◌∷◌ slash (join (q ∷ rest) "/")
unfolding join
join-cons p q rest = ap (λ (t : String). p <> t) (slash-append (join (q ∷ rest) "/"))

-- Joined by slashes, parts that hold none can be told apart.
join_injective :
    (p : String) (ps : List String) (q : String) (qs : List String)
    → All NoSlash (p ∷ ps)
    → All NoSlash (q ∷ qs)
    → join (p ∷ ps) "/" ≡ join (q ∷ qs) "/"
    → p ∷ ps ≡ q ∷ qs
unfolding join
join_injective p [] q [] h k e = cc
join_injective p [] q (q' ∷ qs) (h, _) k e =
    absurd (NoSlash-append q _ (subst NoSlash (e ∙ join-cons q q' qs) h))
join_injective p (p' ∷ ps) q [] h (k, _) e =
    absurd (NoSlash-append p _ (subst NoSlash (sym e ∙ join-cons p p' ps) k))
join_injective p (p' ∷ ps) q (q' ∷ qs) (h, hs) (k, ks) e =
    let (heads, tails) = cut_unique p q _ _ h k (sym (join-cons p p' ps) ∙ e ∙ join-cons q q' qs) in
    ap₂ ◌∷◌ heads (join_injective p' ps q' qs hs ks tails)

-- What a call of `identifier` returns before folding.
abbrev pub plain : String → List String → String
plain prefix parts = prefix <> join parts "/"

module _ (sha256_hex : String → String) where
  identifier-parts :
      (prefix : String) (parts : List String) (id : String)
      → identifier sha256_hex prefix parts ≡ ok id
      → len (plain prefix parts) ≤ 255
      → All NoSlash parts × (id ≡ plain prefix parts) × (parts ≢ [])
  unfolding identifier
  identifier-parts prefix [] id h short = cc
  identifier-parts prefix (p ∷ ps) id h short =
      let (u, good, rest) = >>=-eq-ok (check_parts (p ∷ ps)) _ h in
      (check_parts-NoSlash (p ∷ ps) good, ground arith, λ e. cc)

  -- Two lists of parts whose identifiers under one prefix fit nft's limit unfolded, and are equal,
  -- are equal: two objects do not share an identifier.
  pub identifier_injective :
      (prefix : String) (ps qs : List String) (id : String)
      → len (plain prefix ps) ≤ 255
      → len (plain prefix qs) ≤ 255
      → identifier sha256_hex prefix ps ≡ ok id
      → identifier sha256_hex prefix qs ≡ ok id
      → ps ≡ qs
  unfolding identifier
  identifier_injective prefix [] qs id sp sq hp hq = cc
  identifier_injective prefix (p ∷ ps) [] id sp sq hp hq = cc
  identifier_injective prefix (p ∷ ps) (q ∷ qs) id sp sq hp hq =
      let (fp, ep, _) = identifier-parts prefix (p ∷ ps) id hp sp in
      let (fq, eq, _) = identifier-parts prefix (q ∷ qs) id hq sq in
      join_injective p ps q qs fp fq (append_cancel_left prefix _ _ (sym ep ∙ eq))

  fold-len : (id : String) → len (fold sha256_hex id) ≤ 255
  unfolding fold
  fold-len id =
      let tag = slice (sha256_hex id) 0 12 in
      omega (
        arith,
        len-append (slice id 0 (255 - len tag - 1)) ("/" <> tag),
        len-append "/" tag,
        len-slice id (255 - len tag - 1),
        len-slice (sha256_hex id) 12,
      )

  -- Whatever the parts, an identifier has at most the 255 bytes that nft takes.
  pub identifier_bound :
      (prefix : String) (parts : List String) {id : String}
      → identifier sha256_hex prefix parts ≡ ok id
      → len id ≤ 255
  unfolding identifier
  identifier_bound prefix [] h = cc
  identifier_bound prefix (p ∷ ps) h =
      let (u, good, rest) = >>=-eq-ok (check_parts (p ∷ ps)) _ h in
      ground (arith, fold-len (plain prefix (p ∷ ps)))
