-- ===== src/Routes/Watching/Calls.antt =====
-- How often the kernel watch calls back, and when it ends.
use cnidaria_cni.Base.{
  ℕ, ◌+◌, String, ◌≡◌, sym, ap, ◌∙◌, append-nil, Bool, true, false, Option, none, some, List, [],
  ◌∷◌, ◌++◌, arith, if◌then◌else◌, All, ◌<>◌,
}
use cnidaria_cni.Routes.Watching.{
  Event, done, trouble, route, link, addr, closed, Outcome, watching, stopped, failed, watch,
  watch_from, reapply_after_route, reapply_after_link, reapply_after_addr, after_turn, error_text,
  latest,
}

-- An event after which a route may have to be put back: an error that was reported, the removal of a route of the
-- protocol, a link with carrier, a new address of global scope.
abbrev pub counts : Event → Bool
counts (trouble e) = true
counts (route u) = reapply_after_route u
counts (link u) = reapply_after_link u
counts (addr u) = reapply_after_addr u
counts done = false
counts (closed c p) = false

abbrev pub count : List Event → ℕ
count [] = 0
count (e ∷ es) = if counts e then count es + 1 else count es

-- An event after which the loop goes on.
abbrev pub IsOngoing : Event → Type 0
IsOngoing done = ⊥
IsOngoing (closed c p) = ⊥
IsOngoing _ = Unit

-- The last error reported.
abbrev pub reported : Option String → List Event → Option String
reported last [] = last
reported last (trouble e ∷ es) = reported (some e) es
reported last (done ∷ es) = reported last es
reported last (route u ∷ es) = reported last es
reported last (link u ∷ es) = reported last es
reported last (addr u ∷ es) = reported last es
reported last (closed c p ∷ es) = reported last es

turn_lem :
    (b : Bool) (n : ℕ) (r : ℕ × Outcome)
    → after_turn b (n + r.0, r.1) ≡ ((if b then n + 1 else n) + r.0, r.1)
turn_lem true n r = ground arith
turn_lem false n r = ground arith

-- Events that do not end the loop call back once each time that one counts.
ongoing-append :
    (last : Option String) (es rest : List Event)
    → All IsOngoing es
    → watch_from last (es ++ rest)
      ≡ (count es + (watch_from (reported last es) rest).0, (watch_from (reported last es) rest).1)
unfolding watch_from
ongoing-append last [] rest h = ground arith
ongoing-append last (trouble e ∷ es) rest (o, h) =
    ap (after_turn true) (ongoing-append (some e) es rest h) ∙ turn_lem true (count es) _
ongoing-append last (route u ∷ es) rest (o, h) =
    ap (after_turn (reapply_after_route u)) (ongoing-append last es rest h)
    ∙ turn_lem (reapply_after_route u) (count es) _
ongoing-append last (link u ∷ es) rest (o, h) =
    ap (after_turn (reapply_after_link u)) (ongoing-append last es rest h)
    ∙ turn_lem (reapply_after_link u) (count es) _
ongoing-append last (addr u ∷ es) rest (o, h) =
    ap (after_turn (reapply_after_addr u)) (ongoing-append last es rest h)
    ∙ turn_lem (reapply_after_addr u) (count es) _
ongoing-append last (done ∷ es) rest (o, h) = absurd o
ongoing-append last (closed c p ∷ es) rest (o, h) = absurd o

-- The failure of a watch that lost its events.
abbrev pub lost : List Event → Option String → Outcome
lost es pending =
    failed ("routes: kernel events stopped: " <> error_text (latest (reported none es) pending))

-- Once its three subscriptions stand, Watch has called back once and once more for each event that
-- counts; it goes on as long as no event ends it, returns nil when the context is done, and fails with
-- the last error reported when the kernel stops reporting before that.
pub watch-calls :
    (es rest : List Event) (pending : Option String)
    → All IsOngoing es
    → (watch none none none es ≡ (1 + count es, watching))
      × (watch none none none (es ++ (done ∷ rest)) ≡ (1 + count es, stopped))
      × (watch none none none (es ++ (closed true pending ∷ rest)) ≡ (1 + count es, stopped))
      × (watch none none none (es ++ (closed false pending ∷ rest))
          ≡ (1 + count es, lost es pending))
unfolding watch watch_from
watch-calls es rest pending h = (
  ap (λ l. after_turn true (watch_from none l)) (sym (append-nil es))
      ∙ ap (after_turn true) (ongoing-append none es [] h)
      ∙ ground arith,
  ap (after_turn true) (ongoing-append none es (done ∷ rest) h) ∙ ground arith,
  ap (after_turn true) (ongoing-append none es (closed true pending ∷ rest) h) ∙ ground arith,
  ap (after_turn true) (ongoing-append none es (closed false pending ∷ rest) h) ∙ ground arith,
)
