-- ===== src/Http/Renewal/Current.antt =====
-- The token that a subscription has after renewals.
use manipulate.Prelude.{
  ℕ, ◌≡◌, refl, ◌∙◌, String, Bool, true, false, Option, none, some, List, [], ◌∷◌, ◌++◌, ◌⊎◌, inl,
  inr, map, All, if◌then◌else◌,
}
use manipulate.Errors.{Error}
use manipulate.Push.{
  Subscription, new_subscriber, set_current_token, renewed, with_filter, update_filter,
  publish_status, start,
}
use manipulate.Http.Renewal.{Holder, notify, set_password, renew_token, add_subscription}

module _ {Event Config Data : Type 0} (set_parameter : String → String → Config → Config)
    (new_push_config : Config) where
  current_token-renewed :
      (token : String) (p : ℕ × Subscription Event Config Data)
      → (renewed set_parameter new_push_config token p).current_token ≡ p.1.current_token
  unfolding update_filter publish_status
  current_token-renewed token (f, s) = refl

  current_token-with_filter :
      (f : Option ℕ) (s : Subscription Event Config Data)
      → (with_filter set_parameter new_push_config f s).1.current_token ≡ s.current_token
  current_token-with_filter none s = refl
  current_token-with_filter (some f) s = refl

  current_token-set_current_token :
      (token : String) (s : Subscription Event Config Data)
      → (set_current_token set_parameter new_push_config token s).current_token ≡ token
  unfolding set_current_token
  current_token-set_current_token token s =
      current_token-renewed token (
        with_filter set_parameter new_push_config s.current_filter
          (record s { current_token = token }))
      ∙ current_token-with_filter s.current_filter (record s { current_token = token })

  -- A registered subscription has the token that the manipulator sends.
  abbrev IsCurrent : String → Subscription Event Config Data → Type 0
  IsCurrent password s = s.registered ≡ true → s.current_token ≡ password

  abbrev pub AreCurrent : Holder Event Config Data → Type 0
  AreCurrent h = All (IsCurrent h.password) h.subscriptions

  -- What happens to the tokens: a renewal that `send` asks for, a token that the token manager
  -- gives out, a new subscription, the start of one that has the current password, and what changes
  -- neither the token of a subscription nor starts it.
  pub data Step : Holder Event Config Data → Holder Event Config Data → Type 0 where
    renewal :
        (answer : Error ⊎ String) (h : Holder Event Config Data)
        → Step h (renew_token set_parameter new_push_config answer h).1
    issued :
        (token : String) (h : Holder Event Config Data)
        → Step h (set_password set_parameter new_push_config token h)
    subscription : (h : Holder Event Config Data) → Step h (add_subscription h)
    starting :
        (password : String) (before after : List (Subscription Event Config Data))
        (s : Subscription Event Config Data) (filter : Option ℕ)
        → s.current_token ≡ password
        → Step
            (record { password = password; subscriptions = before ++ s ∷ after })
            (record { password = password; subscriptions = before ++ start filter s ∷ after })
    work :
        (password : String) (before after : List (Subscription Event Config Data))
        (s s' : Subscription Event Config Data)
        → s'.current_token ≡ s.current_token
        → (s'.registered ≡ true → s.registered ≡ true)
        → Step
            (record { password = password; subscriptions = before ++ s ∷ after })
            (record { password = password; subscriptions = before ++ s' ∷ after })

  pub data Reach (h : Holder Event Config Data) : Holder Event Config Data → Type 0 where
    here : Reach h h
    next : {k l : Holder Event Config Data} → Reach h k → Step k l → Reach h l

  notify-IsCurrent :
      (token : String) (s : Subscription Event Config Data)
      → IsCurrent token (notify set_parameter new_push_config token s)
  unfolding notify
  notify-IsCurrent token s = by s.registered refl
    where
      by :
          (b : Bool)
          → s.registered ≡ b
          → IsCurrent token
              (if b then set_current_token set_parameter new_push_config token s else s)
      by true e = λ h. current_token-set_current_token token s
      by false e = λ h. cc (e, h)

  set_password-AreCurrent :
      (token : String) (subscriptions : List (Subscription Event Config Data))
      → All (IsCurrent token) (map (notify set_parameter new_push_config token) subscriptions)
  set_password-AreCurrent token [] = tt
  set_password-AreCurrent token (s ∷ subscriptions) =
      (notify-IsCurrent token s, set_password-AreCurrent token subscriptions)

  renew_token-AreCurrent :
      (answer : Error ⊎ String) (h : Holder Event Config Data)
      → AreCurrent h
      → AreCurrent (renew_token set_parameter new_push_config answer h).1
  unfolding renew_token
  renew_token-AreCurrent (inl e) h are = are
  renew_token-AreCurrent (inr token) h are = set_password-AreCurrent token h.subscriptions

  added-AreCurrent :
      (password : String) (subscriptions : List (Subscription Event Config Data))
      → All (IsCurrent password) subscriptions
      → All (IsCurrent password) (subscriptions ++ new_subscriber password ∷ [])
  added-AreCurrent password [] are = ((λ h. refl), tt)
  added-AreCurrent password (s ∷ subscriptions) are =
      (are.0, added-AreCurrent password subscriptions are.1)

  replaced-AreCurrent :
      (password : String) (before after : List (Subscription Event Config Data))
      (s s' : Subscription Event Config Data)
      → (IsCurrent password s → IsCurrent password s')
      → All (IsCurrent password) (before ++ s ∷ after)
      → All (IsCurrent password) (before ++ s' ∷ after)
  replaced-AreCurrent password [] after s s' f are = (f are.0, are.1)
  replaced-AreCurrent password (b ∷ before) after s s' f are =
      (are.0, replaced-AreCurrent password before after s s' f are.1)

  current_token-start :
      (filter : Option ℕ) (s : Subscription Event Config Data)
      → (start filter s).current_token ≡ s.current_token
  unfolding start
  current_token-start none s = refl
  current_token-start (some f) s = refl

  Step-AreCurrent : {h k : Holder Event Config Data} → Step h k → AreCurrent h → AreCurrent k
  unfolding set_password add_subscription
  Step-AreCurrent (renewal answer h) are = renew_token-AreCurrent answer h are
  Step-AreCurrent (issued token h) are = set_password-AreCurrent token h.subscriptions
  Step-AreCurrent (subscription h) are = added-AreCurrent h.password h.subscriptions are
  Step-AreCurrent (starting password before after s filter same) are =
      replaced-AreCurrent password before after s (start filter s)
        (λ _ _. current_token-start filter s ∙ same) are
  Step-AreCurrent (work password before after s s' same still) are =
      replaced-AreCurrent password before after s s' (λ c r. same ∙ c (still r)) are

  -- If every registered subscription has the token that the manipulator sends, this stays so,
  -- whatever tokens are issued and whenever renewals fail, as long as a subscription is started
  -- only while it has the current token, as it has when it is made.
  pub Reach-AreCurrent : {h k : Holder Event Config Data} → AreCurrent h → Reach h k → AreCurrent k
  Reach-AreCurrent are here = are
  Reach-AreCurrent are (next r s) = Step-AreCurrent s (Reach-AreCurrent are r)
