-- ===== src/Notifications/Read.antt =====
-- `getUnreadCount`, `markRead`, `markAllRead`, `markReadByLink` and `findAll`.
use south_connect.Prelude.{
  ℕ, ◌≡◌, ◌≢◌, refl, ◌∙◌, inl, inr, true, false, not, ◌&&◌, arith, ◌==◌, is_key, if◌then◌else◌,
  Bool-cases,
}
use south_connect.Database.{Where}
use south_connect.Schema.{Text, UserKey}
use south_connect.Social.Tally.{count-none}
use south_connect.Notifications.{Notification, Bell, Services}
use south_connect.Notifications.InApp.{unread}

abbrev pub marked_read : Notification → Notification
marked_read n = record n { is_read = true }

-- What a user marks as read: one notification, all, or those that point to a link.
pub data Reading : Type 0 where
  one : ℕ → Reading
  everything : Reading
  of_link : Text → Reading

-- The `where` of `markRead`, `markAllRead` and `markReadByLink`.
abbrev pub to_mark : Reading → UserKey → Where Notification
to_mark (one id) user k n = k == id && n.user_id == user
to_mark everything user k n = n.user_id == user && not n.is_read
to_mark (of_link link) user k n = n.user_id == user && (is_key n.link link && not n.is_read)

module _ (sv : Services) where
  unfoldable pub get_unread_count : UserKey → Bell → ℕ
  get_unread_count user b = sv.notification.count (unread sv user) b.notifications

  unfoldable pub mark : Reading → UserKey → Bell → Bell
  mark reading user b = record b {
    notifications = sv.notification.update_many (to_mark reading user) marked_read b.notifications;
  }

  -- The rows that are left unread after a reading, by the rows before.
  left_unread :
      (reading : Reading) (user reader : UserKey) (b : Bell)
      → get_unread_count reader (mark reading user b)
        ≡ sv.notification.count
            (λ k n. unread sv reader k (if to_mark reading user k n then marked_read n else n))
            b.notifications
  unfolding mark get_unread_count
  left_unread reading user reader b =
      sv.notification.count-mapped (to_mark reading user) marked_read b.notifications
        (unread sv reader)

  marks_own :
      (reading : Reading) (user k : ℕ) (n : Notification)
      → to_mark reading user k n ≡ true
      → n.user_id ≡ user
  marks_own (one id) user k n h = ground (arith, h)
  marks_own everything user k n h = ground (arith, h)
  marks_own (of_link link) user k n h = ground (arith, h)

  -- Whatever a user marks as read, no one else's unread count moves, and once the user has marked
  -- everything the user's own is zero.
  pub mark-unread :
      (reading : Reading) (user reader : UserKey) (b : Bell)
      → reader ≢ user
      → (get_unread_count reader (mark reading user b) ≡ get_unread_count reader b)
        × (get_unread_count user (mark everything user b) ≡ 0)
  unfolding get_unread_count
  mark-unread reading user reader b other = (
    left_unread reading user reader b
        ∙ sv.notification.count-agree _ (unread sv reader) b.notifications (λ k n present.
          elim (Bool-cases (to_mark reading user k n)) [
            | inl marked ↦ rw (marked, not_mine k n (marks_own reading user k n marked)) refl
            | inr left ↦ rw left refl
          ]),
    left_unread everything user user b
        ∙ sv.notification.count-agree _ (λ k n. false) b.notifications (λ k n present. ground arith)
        ∙ nothing,
  )
    where
      not_mine : (k : ℕ) (n : Notification) → n.user_id ≡ user → (n.user_id == reader) ≡ false
      not_mine k n mine = ground (arith, mine, other)

      nothing : sv.notification.count (λ k n. false) b.notifications ≡ 0
      nothing = count-none sv.notification (λ k n. false) b.notifications (λ k n present. refl)
