-- ===== src/Nftables/Identifier/Begins.antt =====
-- An identifier begins with its prefix, whether it was folded or not.
use Prim.Native.Nat.{compare, Ordering}
use Prim.Native.Char.{Char, len_utf8}
use Prim.Native.String.{len, slice, fits}
use Prim.Native.String.slice as slices
use Prim.Native.String.len as lens
use text.Mathlib.TextLemmas.{nil-append, cons-append, append_assoc as append_assoc_text}
use cnidaria_cni.Base.{
  ℕ, ◌+◌, ◌-◌, ◌≤◌, String, ◌<>◌, ◌≡◌, refl, ap, ◌∙◌, List, [], ◌∷◌, arith, ltb, Bool-cases, inl,
  inr, ok, >>=-eq-ok, join, len-slice,
}
use cnidaria_cni.Nftables.Identifier.{check_parts, fold, identifier}

-- A slice from the beginning that covers a text takes it whole.
fits_whole : (c : Char) (r : String) (w n : ℕ) → w ≤ n → fits (compare w n) c r ≡ String.◌∷◌ c r
fits_whole c r w n h = by_order (compare w n) refl
  where
    by_order : (o : Ordering) → compare w n ≡ o → fits o c r ≡ String.◌∷◌ c r
    by_order Ordering.lt e = refl
    by_order Ordering.eq e = refl
    by_order Ordering.gt e = absurd (ground arith)

lens_nil : len String.[] ≡ 0
lens_nil = lens.nil

lens_cons : (c : Char) (s : String) → len (String.◌∷◌ c s) ≡ len_utf8 c + len s
lens_cons c s = lens.cons c s

less-own : (n k : ℕ) → n + k - n ≡ k
less-own n k = omega arith

slice_step :
    (c : Char) (s : String) (k : ℕ)
    → slice (String.◌∷◌ c s) 0 (len_utf8 c + k) ≡ String.◌∷◌ c (slice s 0 k)
slice_step c s k = rw (slices.cons-zero c s (len_utf8 c + k)) (
    fits_whole c _ (len_utf8 c) (len_utf8 c + k) (omega arith)
    ∙ ap (λ n. String.◌∷◌ c (slice s 0 n)) (less-own (len_utf8 c) k))

slice-append_over : (s t : String) (k : ℕ) → slice (s <> t) 0 (len s + k) ≡ s <> slice t 0 k
slice-append_over String.[] t k =
    rw (nil-append t, nil-append (slice t 0 k)) (ap (λ n. slice t 0 n) (omega (arith, lens_nil)))
slice-append_over (String.◌∷◌ c s) t k =
    let bound : len (String.◌∷◌ c s) + k ≡ len_utf8 c + (len s + k) =
      omega (arith, lens_cons c s) in
    rw (cons-append c s t, cons-append c s (slice t 0 k), bound)
      (slice_step c (s <> t) (len s + k) ∙ ap (λ u. String.◌∷◌ c u) (slice-append_over s t k))

-- A text that another begins with.
abbrev pub BeginsWith : String → String → Type 0
BeginsWith prefix s = (rest : String) × (s ≡ prefix <> rest)

module _ (sha256_hex : String → String) where
  fold-begins :
      (prefix rest : String)
      → len prefix ≤ 200
      → BeginsWith prefix (fold sha256_hex (prefix <> rest))
  unfolding fold
  fold-begins prefix rest short =
      let tag = slice (sha256_hex (prefix <> rest)) 0 12 in
      let k = 255 - len tag - 1 - len prefix in
      let cut : 255 - len tag - 1 ≡ len prefix + k =
        omega (arith, len-slice (sha256_hex (prefix <> rest)) 12) in
      (
        slice rest 0 k <> ("/" <> tag),
        ap (λ (n : ℕ). slice (prefix <> rest) 0 n <> ("/" <> tag)) cut
            ∙ (ap (λ (a : String). a <> ("/" <> tag)) (slice-append_over prefix rest k)
                ∙ append_assoc_text prefix (slice rest 0 k) ("/" <> tag)),
      )

  -- An identifier begins with its prefix, folded or not, if the prefix has at most 200 bytes.
  pub identifier-begins :
      (prefix : String) (parts : List String) {id : String}
      → identifier sha256_hex prefix parts ≡ ok id
      → len prefix ≤ 200
      → BeginsWith prefix id
  unfolding identifier
  identifier-begins prefix [] h short = cc
  identifier-begins prefix (p ∷ ps) {id} h short =
      let (u, good, whole) = >>=-eq-ok (check_parts (p ∷ ps)) _ h in
      elim (Bool-cases (ltb 255 (len (prefix <> join (p ∷ ps) "/")))) [
        | inl long ↦
            let (rest, folded) = fold-begins prefix (join (p ∷ ps) "/") short in
            (rest, ground arith)
        | inr fits ↦ (join (p ∷ ps) "/", ground arith)
      ]
