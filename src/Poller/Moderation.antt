-- ===== src/Poller/Moderation.antt =====
-- bubbles.go: checkMod and handleNewReports. The texts of the alerts are in
-- Poller/Alerts. mod_state.go: a start has no state, and what persistModState hands to it is dropped.
use mediavida.Base.{
  ◌≡◌, refl, ap, ◌∙◌, Bool, true, false, Text, Option, none, some, List, [], ◌∷◌, ◌++◌, map, arith,
  if◌then◌else◌, same, text_key,
}
use mediavida.Base.Int.{ℤ, pos, ltb_ℤ}
use mediavida.Base.Maps.{Map, lookup, insert, lookup-insert_self}
use mediavida.Scraper.Pages.{ModBubbles, ModReport, report_key}

-- Each alert is about a forum by its slug; those of the counters have its number too.
pub data Alert : Type 0 where
  new_report : Text → ModReport → Alert
  reports_changed reports_unread mod_messages : Text → Text → ℤ → Alert

-- prevMod and prevReports of one client, by slug.
pub record ModState : Type 0 where
  pub prev_mod : Map Text ModBubbles
  pub prev_reports : Map Text (List Text)

-- loadModState
abbrev pub load_mod_state : ModState
load_mod_state = record { prev_mod = []; prev_reports = [] }

-- What mediavida.com answers about one forum: its counters (`none` inside for a forum of which the
-- user is no moderator) and its reports; `none` if the fetch fails.
pub record ModNet : Type 0 where
  pub mod_bubbles : Text → Option (Option ModBubbles)
  pub mod_reports : Text → Option (List ModReport)

unfoldable pub is_seen : Text → List Text → Bool
is_seen key [] = false
is_seen key (k ∷ ks) = let rest = is_seen key ks in if same k key then true else rest

-- The reports whose keys were not seen before, in their order.
unfoldable pub unseen : List Text → List ModReport → List ModReport
unseen seen [] = []
unseen seen (r ∷ rs) =
    let rest = unseen seen rs in if is_seen (report_key r) seen then rest else r ∷ rest

unfoldable pub keys_of : Text → ModState → List Text
keys_of slug st = elim (lookup slug st.prev_reports) [ none ↦ [] | some ks ↦ ks ]

unfoldable pub report_alerts : Text → ModBubbles → List ModReport → List Alert
report_alerts slug mb [] = reports_changed slug mb.forum_id mb.reports ∷ []
report_alerts slug mb (r ∷ rs) = map (new_report slug) (r ∷ rs)

-- handleNewReports
unfoldable pub handle_new_reports : ModNet → Text → ModBubbles → ModState → List Alert × ModState
unfolding report_alerts
handle_new_reports n slug mb st = elim (n.mod_reports mb.forum_id) [
  | none ↦ (reports_unread slug mb.forum_id mb.reports ∷ [], st)
  | some rs ↦ (
    report_alerts slug mb (unseen (keys_of slug st) rs),
    record st { prev_reports = insert slug (map report_key rs) st.prev_reports },
  )
]

unfoldable pub last_mod : Text → ModState → ModBubbles
last_mod slug st = elim (lookup slug st.prev_mod) [
  | none ↦ record { forum_slug = []; forum_id = []; reports = pos 0; messages = pos 0 }
  | some mb ↦ mb
]

-- One turn of the loop of checkMod.
unfoldable pub check_forum : ModNet → Text → ModState → List Alert × ModState
check_forum n slug st = elim (n.mod_bubbles slug) [
  | none ↦ ([], st)
  | some none ↦ ([], st)
  | some (some current) ↦
      (let prev : ModBubbles = last_mod slug st in
        let noted : ModState = record st { prev_mod = insert slug current st.prev_mod } in
        let (alerts, st') =
          if ltb_ℤ prev.reports current.reports
          then handle_new_reports n slug current noted
          else ([], noted) in
        (
          alerts
              ++ (if ltb_ℤ prev.messages current.messages
                  then mod_messages slug current.forum_id current.messages ∷ []
                  else []),
          st',
        ))
]

-- checkMod, for a user with these slugs.
unfoldable pub check_mod_forums : ModNet → List Text → ModState → List Alert × ModState
check_mod_forums n [] st = ([], st)
check_mod_forums n (slug ∷ slugs) st =
    let (alerts, st') = check_forum n slug st in
    let (more, last) = check_mod_forums n slugs st' in (alerts ++ more, last)

-- The prev_mod that a turn leaves, and that handleNewReports leaves it alone.
prev_mod-check_forum :
    (n : ModNet) (slug : Text) (st : ModState) (current : ModBubbles)
    → n.mod_bubbles slug ≡ some (some current)
    → (check_forum n slug st).1.prev_mod ≡ insert slug current st.prev_mod
unfolding check_forum handle_new_reports
prev_mod-check_forum n slug st current h = ground (arith, h)

module _ (n : ModNet) (slug : Text) where
  check_forum-quiet :
      (st : ModState) (current : ModBubbles)
      → n.mod_bubbles slug ≡ some (some current)
      → lookup slug st.prev_mod ≡ some current
      → (check_forum n slug st).0 ≡ []
  unfolding check_forum last_mod
  check_forum-quiet st current h l = ground (arith, h, l)

  again-at :
      (st : ModState) (o : Option (Option ModBubbles))
      → n.mod_bubbles slug ≡ o
      → (check_forum n slug (check_forum n slug st).1).0 ≡ []
  unfolding check_forum
  again-at st none h = ground (arith, h)
  again-at st (some none) h = ground (arith, h)
  again-at st (some (some current)) h = check_forum-quiet (check_forum n slug st).1 current h (
      ap (lookup slug) (prev_mod-check_forum n slug st current h)
      ∙ lookup-insert_self slug current st.prev_mod)

  -- A second look at a forum that answers the same as at the first sends no alert.
  pub check_forum-again : (st : ModState) → (check_forum n slug (check_forum n slug st).1).0 ≡ []
  check_forum-again st = again-at st (n.mod_bubbles slug) refl

-- Whether some alert names the report.
unfoldable pub is_alerted : Text → List Alert → Bool
is_alerted key [] = false
is_alerted key (new_report slug r ∷ as') =
    let rest = is_alerted key as' in if same (report_key r) key then true else rest
is_alerted key (reports_changed slug fid n ∷ as') = is_alerted key as'
is_alerted key (reports_unread slug fid n ∷ as') = is_alerted key as'
is_alerted key (mod_messages slug fid n ∷ as') = is_alerted key as'

is_alerted-map :
    (slug key : Text) (rs : List ModReport)
    → is_alerted key (map (new_report slug) rs) ≡ is_seen key (map report_key rs)
unfolding is_alerted is_seen
is_alerted-map slug key [] = refl
is_alerted-map slug key (r ∷ rs) = ground (arith, is_alerted-map slug key rs)

pub is_alerted-report_alerts :
    (slug key : Text) (mb : ModBubbles) (rs : List ModReport)
    → is_alerted key (report_alerts slug mb rs) ≡ is_seen key (map report_key rs)
unfolding is_alerted is_seen report_alerts
is_alerted-report_alerts slug key mb [] = refl
is_alerted-report_alerts slug key mb (r ∷ rs) = is_alerted-map slug key (r ∷ rs)

is_seen-unseen :
    (key : Text) (seen : List Text) (rs : List ModReport)
    → is_seen key seen ≡ true
    → is_seen key (map report_key (unseen seen rs)) ≡ false
unfolding is_seen unseen
is_seen-unseen key seen [] h = refl
is_seen-unseen key seen (r ∷ rs) h = ground (arith, h, is_seen-unseen key seen rs h)

-- A report whose key was on the list at the last look is not alerted again.
handle_new_reports-seen :
    (n : ModNet) (slug key : Text) (mb : ModBubbles) (st : ModState)
    → is_seen key (keys_of slug st) ≡ true
    → is_alerted key (handle_new_reports n slug mb st).0 ≡ false
unfolding handle_new_reports is_alerted
handle_new_reports-seen n slug key mb st h =
    grind (arith, h, is_alerted-report_alerts, is_seen-unseen)

unseen_none : (rs : List ModReport) → unseen [] rs ≡ rs
unfolding unseen is_seen
unseen_none [] = refl
unseen_none (r ∷ rs) = ap (λ l. r ∷ l) (unseen_none rs)

-- After a restart every open report of a forum is alerted again.
handle_new_reports-restart :
    (n : ModNet) (slug : Text) (mb : ModBubbles) (r : ModReport) (rs : List ModReport)
    → n.mod_reports mb.forum_id ≡ some (r ∷ rs)
    → (handle_new_reports n slug mb load_mod_state).0 ≡ map (new_report slug) (r ∷ rs)
unfolding handle_new_reports report_alerts keys_of lookup
handle_new_reports-restart n slug mb r rs h = ground (arith, h, unseen_none (r ∷ rs))
