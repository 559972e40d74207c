-- ===== src/Profile/Models.antt =====
-- Profile/internal/models/models.go and events.go, and Profile/lib/errs/errs.go. The library of
-- decimal numbers is a parameter: its type and the operations that the service calls.
use crypto_asset_tracker_mic.Base.{ℕ, Bool, Option, List, Text, ◌≡◌, Eq, ◌↔◌, refl, true, false}

pub record Decimal : Type 1 where
  pub Number : Type 0
  pub zero : Number
  pub add : Number → Number → Number
  pub mul : Number → Number → Number
  pub is_negative : Number → Bool
  pub is_zero : Number → Bool
  pub of_text : Text → Option Number
  pub to_text : Number → Text

-- A user's identifier, by its canonical text.
abbrev pub Uuid : Type 0
Uuid = Text

pub data Sentinel : Type 0 where
  not_found already_exists internal insufficient_funds : Sentinel

abbrev pub sentinel_beq : Sentinel → Sentinel → Bool
sentinel_beq not_found not_found = true
sentinel_beq already_exists already_exists = true
sentinel_beq internal internal = true
sentinel_beq insufficient_funds insufficient_funds = true
sentinel_beq _ _ = false

pub sentinel_beq_iff : (a b : Sentinel) → (sentinel_beq a b ≡ true) ↔ (a ≡ b)
sentinel_beq_iff not_found not_found = ((λ _. refl), (λ _. refl))
sentinel_beq_iff already_exists already_exists = ((λ _. refl), (λ _. refl))
sentinel_beq_iff internal internal = ((λ _. refl), (λ _. refl))
sentinel_beq_iff insufficient_funds insufficient_funds = ((λ _. refl), (λ _. refl))
sentinel_beq_iff _ _ = ((λ h. cc), (λ h. cc))

instance abbrev pub sentinel_eq : Eq Sentinel
sentinel_eq = record { same = sentinel_beq; same_iff = sentinel_beq_iff }

module _ (D : Decimal) where
  open D use {Number}

  pub record Coin : Type 0 where
    pub id : ℕ
    pub symbol : Text
    pub quantity : Number
    pub user_id : Uuid

  pub record User : Type 0 where
    pub id : Uuid
    pub name : Text
    pub coins : List Coin

  pub record PriceUpdate : Type 0 where
    pub symbol : Text
    pub price : Number

  pub record CoinView : Type 0 where
    pub symbol : Text
    pub quantity : Number
    pub price : Number
    pub total : Number

  pub record PortfolioView : Type 0 where
    pub user_id : Text
    pub user_name : Text
    pub total_value : Number
    pub coins : List CoinView
