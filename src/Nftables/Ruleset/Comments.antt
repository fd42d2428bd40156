-- ===== src/Nftables/Ruleset/Comments.antt =====
-- Comments are cut to what nft accepts.
use Prim.Native.String.{len, slice}
use text.Mathlib.TextPositions.{len-append}
use text.Mathlib.TextEquality.{slice-prefix}
use text.Mathlib.TextBridge.{IsPrefix}
use cnidaria_cni.Base.{len-slice, ◌≤◌, ◌<◌, String, ◌<>◌, ◌≡◌, true, false, leb, arith}
use cnidaria_cni.Nftables.Ruleset.{clip_comment}

-- Whatever the comment, what nft is handed has at most 128 bytes; a comment that fits is handed
-- over whole, and a longer one as a prefix of it with an ellipsis behind.
pub clip_comment_bound :
    (c : String)
    → (len (clip_comment c) ≤ 128)
      × ((len c ≤ 128 → clip_comment c ≡ c)
          × (128 < len c → (t : String) × IsPrefix t c × (clip_comment c ≡ t <> "...")))
unfolding clip_comment
clip_comment_bound c =
    let short : leb (len c) 128 ≡ true → clip_comment c ≡ c = λ h. rw h in
    let long : leb (len c) 128 ≡ false → clip_comment c ≡ slice c 0 125 <> "..." = λ h. rw h in
    (
      ground (arith, len-append (slice c 0 125) "...", len-slice c 125),
      (
        (λ h. short (ground arith)),
        (λ h. (slice c 0 125, slice-prefix c 125, long (ground arith))),
      ),
    )
