-- ===== src/Server/Accounts/Notifications.antt =====
-- Notifications: smartparcel-server/app/services/services.py, `list_user_notifications`,
-- `list_notifications` and `mark_notification_read`.
use smart_parcel_station.Prelude.{ℕ, List, ◌==◌, filter, find_first, update_where}
use smart_parcel_station.Session.{Action, pure, gets, modify, commit, or_raise, ◌>>=◌, ◌>>◌}
use smart_parcel_station.Server.Enums.{NotificationStatus}
use smart_parcel_station.Server.Models.{Db, Notification}
use smart_parcel_station.Server.Cards.{not_found}
use smart_parcel_station.Server.Listing.{newest_first, first_rows}

unfoldable pub list_user_notifications : ℕ → Action Db (List Notification)
list_user_notifications user_id =
    gets (λ db. newest_first (λ n. n.id) (filter (λ n. n.user_id == user_id) db.notifications))

unfoldable pub list_notifications : Action Db (List Notification)
list_notifications = gets (λ db. first_rows 100 (newest_first (λ n. n.id) db.notifications))

unfoldable pub mark_notification_read : ℕ → Action Db Notification
mark_notification_read notification_id = do
  found ← gets (λ db. find_first (λ n. n.id == notification_id) db.notifications)
  notification ← or_raise found (not_found "notification")
  modify (λ db. record db {
    notifications =
        update_where (λ n. n.id == notification.id)
          (λ n. record n { status = NotificationStatus.read }) db.notifications;
  })
  commit
  pure (record notification { status = NotificationStatus.read })
