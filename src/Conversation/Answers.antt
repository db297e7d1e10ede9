-- ===== src/Conversation/Answers.antt =====
-- Every message to app/conversation/service.py is answered.
use mathlib.Core.Bool.{true≢false}
use vyapar_ai.Prelude.{ℕ, String, Bool, true, false, ◌≡◌, refl, Option, if◌then◌else◌}
use vyapar_ai.Common.Error.{Error}
use vyapar_ai.Common.Result.{Result, ok, err}
use vyapar_ai.Common.Decimal.{Decimal}
use vyapar_ai.Database.Session.{Env, Exec, Session, pure, catch, ◌>>=◌}
use vyapar_ai.Conversation.{Resolved, resolved, failed, crashed, IncomingMessage, OutgoingMessage}
use vyapar_ai.Conversation.Service.{ConversationOutcome, act, answer, handle, text_of, finish}

-- What a call answers with satisfies `P`.
abbrev AnswersWith : {A : Type 0} → (A → Type 0) → Result A → Type 0
AnswersWith P (ok a) = P a
AnswersWith P (err e) = ⊥

-- The call answers in every session, whatever the database does.
record Answers {A : Type 0} (P : A → Type 0) (m : Exec A) : Type 0 where
  pub answers : (s : Session) → AnswersWith P (m s).0

module _ {A : Type 0} {P : A → Type 0} where
  pure-Answers : (a : A) → P a → Answers P (pure a)
  unfolding pure
  pure-Answers a p = record { answers = λ s. p }

  if-Answers :
      (b : Bool) {m n : Exec A} → Answers P m → Answers P n → Answers P (if b then m else n)
  if-Answers true h k = h
  if-Answers false h k = k

-- A call under a handler that catches everything and answers.
catch-Answers :
    {A : Type 0} (m : Exec A) (f : Error → Exec A)
    → ((e : Error) → Answers (λ _. Unit {0}) (f e))
    → Answers (λ _. Unit {0}) (catch m f)
unfolding catch
catch-Answers {A} m f h = record { answers = λ s. go (m s) }
  where
    go :
        (x : Result A × Session)
        → AnswersWith
            (λ _. Unit {0})
            (let y : Result A × Session =
                (let (r, t) = x in elim r [ ok a ↦ (ok a, t) | err e ↦ f e t ]) in
              y).0
    go (ok a, t) = tt
    go (err e, t) = (h e).answers t

module _ {A B : Type 0} {P : A → Type 0} {Q : B → Type 0} where
  bind-Answers :
      (m : Exec A) (f : A → Exec B)
      → Answers P m
      → ((a : A) → P a → Answers Q (f a))
      → Answers Q (m >>= f)
  unfolding ◌>>=◌
  bind-Answers m f h k = record { answers = λ s. go (m s) (h.answers s) }
    where
      go :
          (x : Result A × Session)
          → AnswersWith P x.0
          → AnswersWith Q
              (let y : Result B × Session =
                  (let (r, t) = x in elim r [ ok a ↦ f a t | err e ↦ (err e, t) ]) in
                y).0
      go (ok a, t) p = (k a p).answers t
      go (err e, t) p = absurd p

-- The provider raises an exception that is no `ConversationAiError`.
abbrev pub is_crash : Resolved → Bool
is_crash crashed = true
is_crash _ = false

-- The answer of a call, and what it satisfies.
the_answer :
    {A : Type 0} {P : A → Type 0} (r : Result A) → AnswersWith P r → (a : A) × (r ≡ ok a) × P a
the_answer (ok a) p = (a, refl, p)
the_answer (err e) p = absurd p

-- The message that is sent to the sender has the reply of `o`.
abbrev pub Reports : (OutgoingMessage → String) → IncomingMessage → ConversationOutcome → Type 0
Reports send incoming o =
    o.provider_message_id
    ≡ send (record {
      business_id = incoming.business_id;
      recipient_phone = incoming.sender_phone;
      text = o.reply;
    })

module _ ⦃env : Env⦄ (contains : String → String → Bool) (lower : String → String)
    (provider : String → Resolved) (threshold : Decimal) where
  answer-Answers :
      (business_id : ℕ) (actor : Option ℕ) (r : Resolved)
      → is_crash r ≡ false
      → Answers (λ _. Unit {0}) (answer contains lower provider threshold business_id actor r)
  unfolding answer act
  answer-Answers business_id actor crashed h = absurd (true≢false h)
  answer-Answers business_id actor failed h = pure-Answers _ tt
  answer-Answers business_id actor (resolved intent) h =
      bind-Answers {P = λ _. Unit {0}} _ _
        (if-Answers _ (pure-Answers _ tt) (catch-Answers _ _ λ e. pure-Answers _ tt))
        λ r p. pure-Answers _ tt

  module _ (send : OutgoingMessage → String) (incoming : IncomingMessage) where
    handle-Answers :
        (actor : Option ℕ)
        → is_crash (provider (text_of incoming)) ≡ false
        → Answers
            (Reports send incoming)
            (handle contains lower provider threshold send incoming actor)
    unfolding handle finish
    handle-Answers actor h = if-Answers _ (pure-Answers _ refl) (
        bind-Answers _ _ (answer-Answers incoming.business_id actor _ h) λ r p. pure-Answers _ refl)

    -- Every message is answered, over a messaging provider that takes every reply, when the provider
    -- of intents resolves the text or raises a `ConversationAiError`, and whatever the database
    -- answers: the call does not raise, and the outcome that it returns carries the id of the message
    -- that is sent to the sender's phone with the reply of the outcome.
    pub handle-answers :
        (actor : Option ℕ) (s : Session)
        → is_crash (provider (text_of incoming)) ≡ false
        → (o : ConversationOutcome) × ((handle contains lower provider threshold send incoming actor
              s).0
            ≡ ok o)
          × Reports send incoming o
    handle-answers actor s h = the_answer _ ((handle-Answers actor h).answers s)
