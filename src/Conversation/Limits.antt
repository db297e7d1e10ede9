-- ===== src/Conversation/Limits.antt =====
-- What app/conversation/service.py promises of a message: it is answered, it changes nothing but the
-- stock, and without a confident intent to adjust, with a product and a quantity, nothing at all.
use mathlib.Core.Bool.{true≢false}
use vyapar_ai.Prelude.{
  ap, ℕ, String, Bool, true, false, not, ◌&&◌, ◌≡◌, refl, ◌∙◌, Option, none, some, List, [], ◌∷◌,
  is_some, if◌then◌else◌,
}
use vyapar_ai.Common.Error.{Error}
use vyapar_ai.Common.Decimal
use vyapar_ai.Common.Decimal.{Decimal}
use vyapar_ai.Models.Inventory.{MovementType}
use vyapar_ai.Database.Tables.{Tables}
use vyapar_ai.Database.Session.{Env, Exec, Session, session_on, pure, catch}
use vyapar_ai.Database.Leaves.{
  Leaves, pure-Leaves, raise-Leaves, bind-Leaves, catch-Leaves, if-Leaves, leaves_committed,
}
use vyapar_ai.Notification.Effects.{but_notifications}
use vyapar_ai.Notification.Wiring.{notified, notified-but_notifications}
use vyapar_ai.Conversation.{
  IntentType, IntentEntities, ResolvedIntent, Resolved, resolved, failed, crashed, IncomingMessage,
  OutgoingMessage, search_product, get_stock, adjust_stock, unsupported, clarification_required,
}
use vyapar_ai.Conversation.Handlers.{
  HandlerResult, given, is_increasing, adjust_quantity, adjust, dispatch,
}
use vyapar_ai.Conversation.Service.{is_actionable, act, answer, handle, text_of}
use vyapar_ai.Conversation.Effects.{but_stock, search_for-Leaves, stock_of-Leaves, handle-Leaves}

-- A message and who sends it.
pub record Delivery : Type 0 where
  pub incoming : IncomingMessage
  pub actor : Option ℕ

abbrev is_adjustment : IntentType → Bool
is_adjustment adjust_stock = true
is_adjustment _ = false

-- The intent is to adjust the stock, with enough confidence, a product and a quantity.
unfoldable pub may_adjust : Decimal → Resolved → Bool
unfolding Decimal.lt
may_adjust threshold failed = false
may_adjust threshold crashed = false
may_adjust threshold (resolved intent) =
    is_adjustment intent.intent
    && not (Decimal.lt intent.confidence threshold)
    && is_some (given intent.entities.product_query)
    && is_some intent.entities.quantity

module _ ⦃env : Env⦄ (contains : String → String → Bool) (lower : String → String) where
  module _ {view : Tables → Tables} where
    adjust_quantity-reads :
        (business_id : ℕ) (query : String) (increasing : Bool) (quantity : Option ℕ)
        (movement_type : Option MovementType) (actor : Option ℕ)
        → is_some quantity ≡ false
        → Leaves view (
            adjust_quantity contains lower business_id query increasing quantity movement_type
              actor)
    unfolding adjust_quantity
    adjust_quantity-reads business_id query increasing none movement_type actor h = pure-Leaves _
    adjust_quantity-reads business_id query increasing (some n) movement_type actor h =
        absurd (true≢false h)

    adjust-reads :
        (business_id : ℕ) (entities : IntentEntities) (query : Option String) (actor : Option ℕ)
        → is_some query && is_some entities.quantity ≡ false
        → Leaves view (adjust contains lower business_id entities query actor)
    unfolding adjust
    adjust-reads business_id entities none actor h = pure-Leaves _
    adjust-reads business_id entities (some query) actor h =
        adjust_quantity-reads business_id query (is_increasing entities.direction) entities.quantity
          entities.movement_type actor h

    -- The gate and the handler, of an intent of one kind.
    gated-reads :
        (business_id : ℕ) (intent : ResolvedIntent) (kind : IntentType) (actor : Option ℕ)
        (low : Bool) (r : HandlerResult) (recover : Error → Exec HandlerResult)
        → ((e : Error) → Leaves view (recover e))
        → is_adjustment kind
            && not low
            && is_some (given intent.entities.product_query)
            && is_some intent.entities.quantity
          ≡ false
        → Leaves view (
            if is_actionable kind && low
            then pure r
            else catch (dispatch contains lower business_id intent kind actor) recover)
    unfolding dispatch is_actionable
    gated-reads business_id intent search_product actor low r recover k h =
        if-Leaves low (pure-Leaves r) (
          catch-Leaves _ _
            (search_for-Leaves contains lower business_id (given intent.entities.product_query)) k)
    gated-reads business_id intent get_stock actor low r recover k h =
        if-Leaves low (pure-Leaves r) (
          catch-Leaves _ _
            (stock_of-Leaves contains lower business_id (given intent.entities.product_query)) k)
    gated-reads business_id intent adjust_stock actor true r recover k h = pure-Leaves r
    gated-reads business_id intent adjust_stock actor false r recover k h =
        catch-Leaves _ _
          (adjust-reads business_id intent.entities (given intent.entities.product_query) actor h) k
    gated-reads business_id intent unsupported actor low r recover k h =
        catch-Leaves _ _ (pure-Leaves _) k
    gated-reads business_id intent clarification_required actor low r recover k h =
        catch-Leaves _ _ (pure-Leaves _) k

  module _ (provider : String → Resolved) (threshold : Decimal) where
    module _ {view : Tables → Tables} where
      answer-reads :
          (business_id : ℕ) (actor : Option ℕ) (r : Resolved)
          → may_adjust threshold r ≡ false
          → Leaves view (answer contains lower provider threshold business_id actor r)
      unfolding answer act may_adjust
      answer-reads business_id actor failed h = pure-Leaves _
      answer-reads business_id actor crashed h = raise-Leaves _
      answer-reads business_id actor (resolved intent) h =
          bind-Leaves _ _
            (gated-reads business_id intent intent.intent actor
              (Decimal.lt intent.confidence threshold) _ _ (λ e. pure-Leaves _) h)
            λ r. pure-Leaves _

      handle-reads :
          (send : OutgoingMessage → String) (incoming : IncomingMessage) (actor : Option ℕ)
          → may_adjust threshold (provider (text_of incoming)) ≡ false
          → Leaves view (handle contains lower provider threshold send incoming actor)
      unfolding handle
      handle-reads send incoming actor h =
          if-Leaves _ (pure-Leaves _)
            (bind-Leaves _ _ (answer-reads incoming.business_id actor _ h) λ r. pure-Leaves _)

    module _ (send : OutgoingMessage → String) where
      -- Without a confident intent to adjust the stock, with a product and a quantity, a message
      -- changes no row of any table, whatever the database answers: when nothing is pending before,
      -- what is committed stays as it is.
      pub unadjusted-committed :
          (incoming : IncomingMessage) (actor : Option ℕ) (s : Session)
          → s.work ≡ s.committed
          → may_adjust threshold (provider (text_of incoming)) ≡ false
          → (handle contains lower provider threshold send incoming actor s).1.committed
            ≡ s.committed
      unadjusted-committed incoming actor s clean h =
          leaves_committed {view = λ t. t} (handle-reads send incoming actor h) s clean

      -- The session in which a message ends.
      unfoldable pub end_of : Delivery → Session → Session
      unfolding handle
      end_of m s = (handle contains lower provider threshold send m.incoming m.actor s).1

      -- The committed tables after messages, each in a session of its own. What a message publishes
      -- goes to the bus on which the listener of app/notification/ is registered, which app/main.py
      -- wires: nothing of the session follows the publish of an adjustment.
      unfoldable pub after : List Delivery → Tables → Tables
      unfolding end_of notified
      after [] t = t
      after (m ∷ ms) t =
          let s = end_of m (session_on t) in after ms (notified s.published s.committed)

      -- No sequence of messages, of any businesses, with the notifications that follow from them,
      -- changes a row but the stock, its movements and the notifications: whatever the provider
      -- resolves the messages to and the database answers to the messages and to the listener.
      pub but_stock-after :
          (ms : List Delivery) (t : Tables)
          → but_notifications (but_stock (after ms t)) ≡ but_notifications (but_stock t)
      unfolding after end_of
      but_stock-after [] t = refl
      but_stock-after (m ∷ ms) t =
          let s = end_of m (session_on t) in
          but_stock-after ms _
          ∙ ap but_stock (notified-but_notifications s.published s.committed)
          ∙ ap but_notifications (
              leaves_committed
                (handle-Leaves contains lower provider threshold send m.incoming m.actor)
                (session_on t) refl)
