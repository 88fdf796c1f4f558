-- ===== src/Notifications/Kept.antt =====
-- The notifications that are kept, as a list: at most 20, the oldest first.
use minimal_watch_firmware_e.Base.{
  ℕ, ◌+◌, ◌-◌, ◌≤◌, ◌<◌, ◌≡◌, ◌≢◌, ◌∙◌, refl, sym, ap, Bool, true, false, Option, some, List, [],
  ◌∷◌, ◌++◌, arith, dec_lt, ℕ_discrete, length, length-read, tail, read, read_agree, read-memmove,
  read-copy_extend, copy, memmove, remove_at, remove_at_beyond, read-remove_at, ◌==◌, store, ◌>>=◌,
  if◌then◌else◌,
}
use minimal_watch_firmware_e.Common.{Notification}
use minimal_watch_firmware_e.Events.{Registry}
use minimal_watch_firmware_e.Ring.Queue
use minimal_watch_firmware_e.Notifications.{
  NotificationManager, max_notifications, dressed, discard_oldest, append, receive_notification,
  init, dismissed, dismiss_notification,
}

abbrev pub held : NotificationManager → List Notification
held s = read s.notifications 0 s.total_notifications

pub record IsValid (s : NotificationManager) : Type 0 where
  pub few : s.total_notifications ≤ max_notifications

append_lem :
    (n : Notification) (s : NotificationManager)
    → s.total_notifications < max_notifications
    → (s' : NotificationManager) × (append n s ≡ some s')
      × IsValid s'
      × (s'.initialized ≡ s.initialized)
      × (held s' ≡ held s ++ (n ∷ []))
append_lem n s h = (
  record s {
    notifications = store s.notifications s.total_notifications n;
    total_notifications = s.total_notifications + 1;
  },
  ground arith,
  record { few = omega arith },
  refl,
  read-copy_extend s.notifications s.total_notifications (n ∷ []),
)

unless_full :
    (l : List Notification)
    → length l ≢ max_notifications
    → l ≡ (if length l == max_notifications then tail l else l)
unless_full l h = ground arith

discard_oldest_lem :
    (s : NotificationManager)
    → IsValid s
    → (s' : NotificationManager) × (discard_oldest s ≡ s')
      × (s'.total_notifications < max_notifications)
      × (s'.initialized ≡ s.initialized)
      × (held s' ≡ (if length (held s) == max_notifications then tail (held s) else held s))
discard_oldest_lem s v = elim (ℕ_discrete s.total_notifications max_notifications) [
  | yes full ↦ (
    record s { notifications = memmove s.notifications 0 1 19; total_notifications = 19 },
    ground (arith, full),
    omega arith,
    refl,
    read-memmove s.notifications 0 1 19
        ∙ ap
            (λ c.
              if length (read s.notifications 0 c) == max_notifications
              then tail (read s.notifications 0 c)
              else read s.notifications 0 c)
            (sym full),
  )
  | no room ↦ (
    s,
    ground arith,
    omega (arith, v.few),
    refl,
    unless_full (held s)
        (λ e. room (sym (length-read s.notifications 0 s.total_notifications) ∙ e)),
  )
]

pub receive_refines :
    (d : ℕ) (n : Notification) (s : NotificationManager)
    → IsValid s
    → (s' : NotificationManager) × (receive_notification d true (some n) s ≡ some s')
      × IsValid s'
      × (s'.initialized ≡ s.initialized)
      × (held s' ≡ Queue.push_oldest max_notifications (held s) (dressed d n))
unfolding receive_notification Queue.push_oldest
receive_refines d n s v =
    let (s1, e1, room, on1, h1) = discard_oldest_lem s v in
    let (s2, e2, v2, on2, h2) = append_lem (dressed d n) s1 room in
    (
      s2,
      ap (append (dressed d n)) e1 ∙ e2,
      v2,
      on2 ∙ on1,
      h2 ∙ ap (λ l. l ++ (dressed d n ∷ [])) h1,
    )

-- The last needs no move.
moved :
    (m : ℕ → Notification) (i n : ℕ) (b : Bool)
    → (i == n - 1) ≡ b
    → i < n
    → read (if b then m else memmove m i (i + 1) (n - i - 1)) 0 (n - 1) ≡ remove_at i (read m 0 n)
moved m i n true e h =
    read_agree m (memmove m i (i + 1) (n - 1 - i)) 0 (n - 1) (λ j p q. ground arith)
    ∙ read-remove_at m i n h
moved m i n false e h =
    ap (λ k. read (memmove m i (i + 1) k) 0 (n - 1)) (omega arith) ∙ read-remove_at m i n h

pub dismiss_refines :
    (i : ℕ) (s : NotificationManager)
    → IsValid s
    → s.initialized ≡ true
    → (s' : NotificationManager) × (dismiss_notification i s ≡ s')
      × IsValid s'
      × (s'.initialized ≡ true)
      × (held s' ≡ remove_at i (held s))
unfolding dismiss_notification
dismiss_refines i s v on = elim (dec_lt i s.total_notifications) [
  | yes inside ↦ (
    dismissed i s,
    ground (arith, on),
    record { few = omega (arith, v.few) },
    on,
    ap (read (dismissed i s).notifications 0) (omega (arith, v.few))
        ∙ moved s.notifications i s.total_notifications (i == s.total_notifications - 1) refl
            inside,
  )
  | no beyond ↦ (
    s,
    ground (arith, on),
    v,
    on,
    sym (
        remove_at_beyond i (held s)
          (omega (arith, length-read s.notifications 0 s.total_notifications))),
  )
]

-- What happens to the manager: a notification arrives, or one is dismissed.
pub data Op : Type 0 where
  receives : Notification → Op
  dismisses : ℕ → Op

unfoldable pub run : ℕ → NotificationManager → List Op → Option NotificationManager
run d s [] = some s
run d s (receives n ∷ ops) = do s' ← receive_notification d true (some n) s; run d s' ops
run d s (dismisses i ∷ ops) = run d (dismiss_notification i s) ops

-- A notification as it is kept: its action is called "Open App" and its dismissal "Dismiss", each with
-- a zero behind it, and the handler of the dismissal is at `d`.
abbrev pub announced : ℕ → Notification → Notification
announced d n = record n {
  action_name = copy n.action_name 0 (79 ∷ 112 ∷ 101 ∷ 110 ∷ 32 ∷ 65 ∷ 112 ∷ 112 ∷ 0 ∷ []);
  dismiss_text = copy n.dismiss_text 0 (68 ∷ 105 ∷ 115 ∷ 109 ∷ 105 ∷ 115 ∷ 115 ∷ 0 ∷ []);
  dismiss_handler = d;
}

-- What is to be shown of it.
abbrev pub shows : ℕ → List Notification → List Op → List Notification
shows d l [] = l
shows d l (receives n ∷ ops) = shows d (Queue.push_oldest max_notifications l (announced d n)) ops
shows d l (dismisses i ∷ ops) = shows d (remove_at i l) ops

run_lem :
    (d : ℕ) (ops : List Op) (s : NotificationManager)
    → IsValid s
    → s.initialized ≡ true
    → (s' : NotificationManager) × (run d s ops ≡ some s')
      × IsValid s'
      × (held s' ≡ shows d (held s) ops)
unfolding run
run_lem d [] s v on = (s, refl, v, refl)
run_lem d (receives n ∷ ops) s v on =
    let (s1, e, v1, on1, h) = receive_refines d n s v in
    let (s2, f, v2, k) = run_lem d ops s1 v1 (on1 ∙ on) in
    (s2, ap (λ o. o >>= λ t. run d t ops) e ∙ f, v2, k ∙ ap (λ l. shows d l ops) h)
run_lem d (dismisses i ∷ ops) s v on =
    let (s1, e, v1, on1, h) = dismiss_refines i s v on in
    let (s2, f, v2, k) = run_lem d ops s1 v1 on1 in
    (s2, ap (λ t. run d t ops) e ∙ f, v2, k ∙ ap (λ l. shows d l ops) h)

-- From a manager that was not initialized, whatever its array and its count hold: after the
-- initialization and any arrivals and dismissals, none of which writes outside the array, the
-- notifications kept are what the list shows that starts empty, takes each arrival behind the others,
-- with its texts and its handler, without its first element when it has 20, and loses the element
-- with the index that is dismissed, if there is one; and they are no more than 20.
pub notifications_refine :
    (d receive : ℕ) (r : Registry) (s : NotificationManager) (ops : List Op)
    → s.initialized ≡ false
    → (s' : NotificationManager) × (run d (init receive r s).1 ops ≡ some s')
      × (held s' ≡ shows d [] ops)
      × (s'.total_notifications ≤ max_notifications)
unfolding init
notifications_refine d receive r s ops off =
    let (s', e, v, h) =
      run_lem d ops (record s { total_notifications = 0; initialized = true })
        (record { few = omega arith }) refl in
    (s', rw off e, h, v.few)
