-- ===== src/Poller/NewReports.antt =====
-- bubbles.go: which reports one look at a forum alerts.
use mediavida.Base.{
  ◌≡◌, refl, ap, ◌∙◌, Bool, true, false, Text, some, List, [], ◌∷◌, ◌++◌, arith, map, not, ◌&&◌,
  if◌then◌else◌, text_key,
}
use mediavida.Base.Int.{ℤ, ltb_ℤ}
use mediavida.Base.Maps.{insert, lookup-insert_self}
use mediavida.Scraper.Pages.{ModBubbles, ModReport, report_key}
use mediavida.Poller.Moderation.{
  Alert, new_report, reports_changed, reports_unread, mod_messages, ModNet, ModState, is_seen,
  unseen, keys_of, last_mod, check_forum, handle_new_reports, is_alerted, is_alerted-report_alerts,
  report_alerts,
}

is_seen-unseen_iff :
    (key : Text) (seen : List Text) (rs : List ModReport)
    → is_seen key (map report_key (unseen seen rs))
      ≡ (is_seen key (map report_key rs) && not (is_seen key seen))
unfolding is_seen unseen
is_seen-unseen_iff key seen [] = refl
is_seen-unseen_iff key seen (r ∷ rs) = ground (arith, is_seen-unseen_iff key seen rs)

is_alerted-append :
    (key : Text) (as' bs : List Alert)
    → is_alerted key (as' ++ bs) ≡ (if is_alerted key as' then true else is_alerted key bs)
unfolding is_alerted
is_alerted-append key [] bs = refl
is_alerted-append key (new_report slug r ∷ as') bs = ground (arith, is_alerted-append key as' bs)
is_alerted-append key (reports_changed slug fid n ∷ as') bs = is_alerted-append key as' bs
is_alerted-append key (reports_unread slug fid n ∷ as') bs = is_alerted-append key as' bs
is_alerted-append key (mod_messages slug fid n ∷ as') bs = is_alerted-append key as' bs

is_alerted-messages :
    (key slug fid : Text) (n : ℤ) (b : Bool)
    → is_alerted key (if b then mod_messages slug fid n ∷ [] else []) ≡ false
unfolding is_alerted
is_alerted-messages key slug fid n true = refl
is_alerted-messages key slug fid n false = refl

module _ (n : ModNet) (slug : Text) (mb : ModBubbles) (rs : List ModReport) where
  alerts-handle_new_reports :
      (st : ModState)
      → n.mod_reports mb.forum_id ≡ some rs
      → (handle_new_reports n slug mb st).0 ≡ report_alerts slug mb (unseen (keys_of slug st) rs)
  unfolding handle_new_reports
  alerts-handle_new_reports st h = ground (arith, h)

  noted : ModState → ModState
  noted st = record st { prev_mod = insert slug mb st.prev_mod }

  messages_of : ModState → List Alert
  messages_of st =
      if ltb_ℤ (last_mod slug st).messages mb.messages
      then mod_messages slug mb.forum_id mb.messages ∷ []
      else []

  alerts-check_forum :
      (st : ModState)
      → n.mod_bubbles slug ≡ some (some mb)
      → ltb_ℤ (last_mod slug st).reports mb.reports ≡ true
      → (check_forum n slug st).0 ≡ (handle_new_reports n slug mb (noted st)).0 ++ messages_of st
  unfolding check_forum noted messages_of
  alerts-check_forum st b h = ground (arith, b, h)

  -- One look alerts the reports on the list that are not among the stored keys.
  is_alerted-once :
      (key : Text) (st : ModState)
      → n.mod_bubbles slug ≡ some (some mb)
      → ltb_ℤ (last_mod slug st).reports mb.reports ≡ true
      → n.mod_reports mb.forum_id ≡ some rs
      → is_alerted key (check_forum n slug st).0
        ≡ (is_seen key (map report_key rs) && not (is_seen key (keys_of slug st)))
  unfolding keys_of noted messages_of
  is_alerted-once key st b h r =
      let seen : List Text = keys_of slug st in
      ap (is_alerted key) (alerts-check_forum st b h)
      ∙ (is_alerted-append key (handle_new_reports n slug mb (noted st)).0 (messages_of st)
          ∙ ground (
            arith,
            ap (is_alerted key) (alerts-handle_new_reports (noted st) r),
            is_alerted-report_alerts slug key mb (unseen seen rs),
            is_seen-unseen_iff key seen rs,
            is_alerted-messages key slug mb.forum_id mb.messages
                (ltb_ℤ (last_mod slug st).messages mb.messages),
          ))

  -- A look that reads the list of reports stores its counters and its keys.
  stored_look :
      (st : ModState)
      → n.mod_bubbles slug ≡ some (some mb)
      → ltb_ℤ (last_mod slug st).reports mb.reports ≡ true
      → n.mod_reports mb.forum_id ≡ some rs
      → (last_mod slug (check_forum n slug st).1 ≡ mb)
        × (keys_of slug (check_forum n slug st).1 ≡ map report_key rs)
  unfolding check_forum handle_new_reports last_mod keys_of
  stored_look st b h r = (
    ground (arith, b, h, r, lookup-insert_self slug mb st.prev_mod),
    ground (arith, b, h, r, lookup-insert_self slug (map report_key rs) st.prev_reports),
  )

-- When a look at a forum has read the list of its reports, and at the next look the count of reports has
-- risen and the list is read again, this look alerts exactly the reports, by their keys, on the new list
-- that were not on the list before, whatever was stored before the two looks.
pub is_alerted-check_forum :
    (n m : ModNet) (slug key : Text) (before after : ModBubbles) (old new : List ModReport)
    (st : ModState)
    → n.mod_bubbles slug ≡ some (some before)
    → ltb_ℤ (last_mod slug st).reports before.reports ≡ true
    → n.mod_reports before.forum_id ≡ some old
    → m.mod_bubbles slug ≡ some (some after)
    → ltb_ℤ before.reports after.reports ≡ true
    → m.mod_reports after.forum_id ≡ some new
    → is_alerted key (check_forum m slug (check_forum n slug st).1).0
      ≡ (is_seen key (map report_key new) && not (is_seen key (map report_key old)))
is_alerted-check_forum n m slug key before after old new st b h r b' h' r' =
    let (counters, keys) = stored_look n slug before old st b h r in
    is_alerted-once m slug after new key (check_forum n slug st).1 b' (rw counters h') r'
    ∙ ap (λ ks. is_seen key (map report_key new) && not (is_seen key ks)) keys
