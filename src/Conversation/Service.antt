-- ===== src/Conversation/Service.antt =====
-- app/conversation/service.py: `ConversationService`.
use vyapar_ai.Prelude.{
  ℕ, String, Bool, true, false, ◌&&◌, Option, none, some, str_eq, if◌then◌else◌,
}
use vyapar_ai.Common.Error.{value_error}
use vyapar_ai.Common.Decimal
use vyapar_ai.Common.Decimal.{Decimal}
use vyapar_ai.Common.Text.{strip}
use vyapar_ai.Database.Session.{Env, Exec, pure, raise, catch, ◌>>=◌}
use vyapar_ai.Conversation.{
  IntentType, ResolvedIntent, Resolved, resolved, failed, crashed, IncomingMessage, OutgoingMessage,
  intent_value, search_product, get_stock, adjust_stock,
}
use vyapar_ai.Conversation.Responses
use vyapar_ai.Conversation.Handlers.{
  HandlerResult, outcome_value, result, dispatch, clarification, error,
}

pub record ConversationOutcome : Type 0 where
  pub reply : String
  pub outcome : String
  pub intent : Option String
  pub provider_message_id : String

-- `resolved.intent in _ACTIONABLE`
unfoldable pub is_actionable : IntentType → Bool
is_actionable search_product = true
is_actionable get_stock = true
is_actionable adjust_stock = true
is_actionable _ = false

abbrev pub intent_name : Option IntentType → Option String
intent_name none = none
intent_name (some intent) = some (intent_value intent)

-- `(incoming.text or "").strip()`
unfoldable pub text_of : IncomingMessage → String
unfolding strip
text_of incoming = elim incoming.text [ none ↦ "" | some text ↦ strip text ]

-- `_finish`; `send` is the messaging provider's, and answers with the id of the message.
unfoldable pub finish :
    (OutgoingMessage → String)
    → IncomingMessage
    → HandlerResult
    → Option IntentType
    → ConversationOutcome
finish send incoming r intent = record {
  reply = r.reply;
  outcome = outcome_value r.outcome;
  intent = intent_name intent;
  provider_message_id = send (record {
    business_id = incoming.business_id;
    recipient_phone = incoming.sender_phone;
    text = r.reply;
  });
}

module _ ⦃env : Env⦄ (contains : String → String → Bool) (lower : String → String)
    (provider : String → Resolved) (threshold : Decimal) where
  -- The gate on the confidence, and the handler with what catches its exceptions.
  unfoldable pub act : ℕ → Option ℕ → ResolvedIntent → Exec HandlerResult
  unfolding dispatch is_actionable Decimal.lt
  act business_id actor_user_id intent =
      if is_actionable intent.intent && Decimal.lt intent.confidence threshold
      then result Responses.low_confidence clarification
      else catch (dispatch contains lower business_id intent intent.intent actor_user_id)
          (λ e. result Responses.internal_error error)

  -- What `handle` makes of the provider's answer.
  unfoldable pub answer : ℕ → Option ℕ → Resolved → Exec (HandlerResult × Option IntentType)
  unfolding act
  answer business_id actor_user_id failed =
      pure (record { reply = Responses.ai_error; outcome = error }, none)
  answer business_id actor_user_id crashed = raise (value_error "provider")
  answer business_id actor_user_id (resolved intent) = do
    r ← act business_id actor_user_id intent
    pure (r, some intent.intent)

  -- `handle`; the sending of a message is outside of the database.
  unfoldable pub handle :
      (OutgoingMessage → String) → IncomingMessage → Option ℕ → Exec ConversationOutcome
  unfolding answer finish text_of
  handle send incoming actor_user_id =
      if str_eq (text_of incoming) ""
      then pure (
          finish send incoming (record { reply = Responses.empty_message; outcome = clarification })
            none)
      else (do
        r ← answer incoming.business_id actor_user_id (provider (text_of incoming))
        pure (finish send incoming r.0 r.1))
