-- ===== src/Notification/Delivery.antt =====
-- What the handling of an event by app/notification/listener.py leaves in the table of notifications.
use vyapar_ai.Prelude.{
  ℕ, ◌≡◌, ◌≢◌, refl, ap, ◌∙◌, Bool, true, false, none, some, List, [], ◌∷◌, ◌++◌, any, ◌==◌, arith,
}
use vyapar_ai.Common.Error.{Error, is_integrity}
use vyapar_ai.Common.Event.{DomainEvent}
use vyapar_ai.Models.Notification.{Notification, same_dedup, notifications_admitted}
use vyapar_ai.Models.Rows.{unique, unique_key}
use vyapar_ai.Models.Rows.Append.{unique-append, unique-append_clash, first-select_append}
use vyapar_ai.Database.Tables.{Tables, admitted}
use vyapar_ai.Database.Session.{Env, Session, session_on, sent, fresh}
use vyapar_ai.Database.Ends.{
  Ends, Ends-end, bind-Ends, catch-Ends, pure-Ends, raise-Ends, if-Ends, weaken-Ends,
}
use vyapar_ai.Database.Steps.{
  after_known, after_modify, after_flush, after_commit, after_rollback, after_reload, after_steps,
  after_pure,
}
use vyapar_ai.Notification.{create_from_draft, reloaded}
use vyapar_ai.Notification.Repository.{row_of, insert_notification, add}
use vyapar_ai.Notification.Messages.{mapper}
use vyapar_ai.Notification.Listener.{handle}

inserts :
    (t : Tables) (n : Notification)
    → admitted t ≡ true
    → notifications_admitted (t.notifications ++ n ∷ []) ≡ true
    → admitted (insert_notification n t) ≡ true
unfolding admitted
inserts t n h k = ground arith

refuses :
    (t : Tables) (n : Notification)
    → notifications_admitted (t.notifications ++ n ∷ []) ≡ false
    → admitted (insert_notification n t) ≡ false
unfolding admitted
refuses t n k = ground arith

keyed :
    (rows : List Notification)
    → notifications_admitted rows ≡ true
    → unique_key (λ (n : Notification). n.id) rows ≡ true
unfolding notifications_admitted
keyed rows h = ground arith

-- The notification that an event is stored as, under a primary key.
abbrev pub stored : DomainEvent → ℕ → Notification
stored event key = record (row_of (mapper event)) { id = key }

-- A notification of the same business with the same key is there.
abbrev pub has_duplicate : DomainEvent → Tables → Bool
has_duplicate event t = any (λ n. same_dedup n (row_of (mapper event))) t.notifications

clashes :
    (event : DomainEvent) (key : ℕ) (t : Tables)
    → has_duplicate event t ≡ true
    → notifications_admitted (t.notifications ++ stored event key ∷ []) ≡ false
unfolding notifications_admitted
clashes event key t h =
    let u : unique same_dedup (t.notifications ++ stored event key ∷ []) ≡ false =
      unique-append_clash same_dedup t.notifications (stored event key) h in
    ground arith

fits :
    (event : DomainEvent) (key : ℕ) (t : Tables)
    → admitted t ≡ true
    → any (λ (n : Notification). n.id == key) t.notifications ≡ false
    → has_duplicate event t ≡ false
    → notifications_admitted (t.notifications ++ stored event key ∷ []) ≡ true
unfolding notifications_admitted admitted unique_key
fits event key t h a b =
    let u : unique same_dedup (t.notifications ++ stored event key ∷ []) ≡ true =
      unique-append same_dedup t.notifications (stored event key) (ground arith) b in
    let k : unique (λ (m n : Notification). m.id == n.id) (t.notifications ++ stored event key ∷ [])
        ≡ true =
      unique-append (λ (m n : Notification). m.id == n.id) t.notifications (stored event key)
        (ground arith) a in
    ground arith

module _ ⦃env : Env⦄ (event : DomainEvent) (t : Tables) where
  abbrev pub row : Notification
  row = stored event (env.next_id 0)

  -- The session when the row has been added, and not yet flushed.
  abbrev added : Session
  added = record (session_on t) { work = insert_notification row t }

  sent_ok : (s : Session) → env.outcome s.calls ≡ none → admitted s.work ≡ true → sent s ≡ none
  unfolding sent
  sent_ok s a b = ground (arith, a, b)

  sent_refused : (s : Session) → admitted s.work ≡ false → sent s ≢ none
  unfolding sent
  sent_refused s b h = ground (arith, b, h)

  module _ (valid : admitted t ≡ true) (first_write : env.outcome 0 ≡ none)
      (second_write : env.outcome 1 ≡ none)
      (unused : any (λ (n : Notification). n.id == env.next_id 0) t.notifications ≡ false)
      (news : has_duplicate event t ≡ false) where
    insert_admitted : admitted (insert_notification row t) ≡ true
    insert_admitted = inserts t row valid (fits event (env.next_id 0) t valid unused news)

    abbrev Delivered : Session → Type 0
    Delivered s = s.committed ≡ insert_notification row t

    sure :
        (s : Session)
        → env.outcome s.calls ≡ none
        → s.work ≡ insert_notification row t
        → {e : Error} → sent s ≡ some e
        → ⊥
    sure s a b h = cc (h, sent_ok s a (ap admitted b ∙ insert_admitted))

    reloaded-Delivered :
        Ends
          (λ r s. Delivered s)
          (λ e s. ⊥)
          (reloaded (some row))
          (record added { calls = 2; committed = insert_notification row t })
    unfolding reloaded
    reloaded-Delivered =
        after_reload _ _ row
          (first-select_append (λ (n : Notification). n.id) t.notifications row
            (keyed (t.notifications ++ row ∷ []) (fits event (env.next_id 0) t valid unused news)))
          _ (pure-Ends _ refl)

    create-delivers :
        Ends (λ r s. Delivered s) (λ e s. ⊥) (create_from_draft (mapper event)) (session_on t)
    unfolding create_from_draft add fresh
    create-delivers =
        bind-Ends
          {P = λ made s.
            (made ≡ some row)
            × (s ≡ record added { calls = 2; committed = insert_notification row t })}
          _ _
          (catch-Ends {D = λ e s. ⊥} _ _
            (after_steps _ _ _ (
              after_known fresh _ refl (
                after_steps _ _ _ (
                  after_modify _ _ (
                    after_steps _ _ _ (
                      after_flush _ (λ e h. sure added first_write refl h)
                        λ _. after_pure _ _ (
                          after_commit _
                            (λ e h. sure (record added { calls = 1 }) second_write refl h)
                            λ _. pure-Ends _ (refl, refl))))))))
            (λ e s h. absurd h))
          λ made s h. rw (h.0, h.1) reloaded-Delivered

    -- An event is delivered: when both writes of its handling are accepted, the primary key is unused
    -- and the business has no notification with the event's key, the notification of the event is
    -- committed beside those that were there, and nothing else is changed. The tables satisfied their
    -- constraints before.
    pub handle-delivers : (handle event t).1 ≡ insert_notification row t
    unfolding handle
    handle-delivers = Ends-end (weaken-Ends create-delivers λ e s h. absurd h)

  module _ (again : has_duplicate event t ≡ true) where
    refused : (s : Session) → s.work ≡ insert_notification row t → sent s ≢ none
    refused s h =
        sent_refused s (ap admitted h ∙ refuses t row (clashes event (env.next_id 0) t again))

    create-refused :
        Ends
          (λ r s. s.committed ≡ t)
          (λ e s. s.committed ≡ t)
          (create_from_draft (mapper event))
          (session_on t)
    unfolding create_from_draft add fresh
    create-refused =
        bind-Ends {P = λ made s. (made ≡ none) × (s.committed ≡ t)} _ _
          (catch-Ends {D = λ e s. s.committed ≡ t} _ _
            (after_steps _ _ _ (
              after_known fresh _ refl (
                after_steps _ _ _ (
                  after_modify _ _ (
                    after_steps _ _ _
                      (after_flush _ (λ e h. refl) λ h. absurd (refused added refl h)))))))
            (λ e s h.
              if-Ends (is_integrity e) (λ _. after_rollback _ (pure-Ends _ (refl, h)))
                λ _. raise-Ends e h))
          λ made s h. rw h.0 (pure-Ends none h.1)

    pub absorbed : (handle event t).1 ≡ t
    unfolding handle
    absorbed = Ends-end create-refused
