-- ===== src/Execution/Policy/Config.antt =====
-- RealMoneyPolicy.from_dict (src/execution/policy.py): the frozen configuration and its refusals.
-- A section that the file lacks is one with no key. Python's `int` and `Decimal` of a value that
-- YAML gives are parameters; `none` is the exception that they raise.
use tradingia.Prelude.{
  arith, ◌≡◌, ◌≤ℤ◌, ℤ, pos, ltb_ℤ, Bool, true, false, Option, none, some, Option-cases, inl, inr,
  if◌then◌else◌,
}
use tradingia.Prelude.Result.{Result, ok, err, ◌>>=◌, ◌>>◌}
use tradingia.Execution.Policy.{RealMoneyPolicy}

-- what a key of the YAML file holds: a boolean, or any other value by its identity
pub data ConfigValue : Type 0 where
  boolean : Bool → ConfigValue
  other : ℤ → ConfigValue

pub record Live : Type 0 where
  pub live_trading_enabled : Option ConfigValue
  pub max_initial_capital_usd : Option ConfigValue
  pub max_additional_funding_usd : Option ConfigValue

pub record Limits : Type 0 where
  pub minimum_volume_only : Option ConfigValue
  pub max_simultaneous_positions : Option ConfigValue

pub record ForbiddenBehaviors : Type 0 where
  pub martingale : Option ConfigValue
  pub averaging_down : Option ConfigValue
  pub recovery_grid : Option ConfigValue
  pub automatic_size_increase : Option ConfigValue
  pub compounding : Option ConfigValue

pub record RawPolicy : Type 0 where
  pub live : Live
  pub limits : Limits
  pub forbidden_behaviors : ForbiddenBehaviors

pub data Key : Type 0 where
  martingale averaging_down recovery_grid automatic_size_increase compounding : Key
  minimum_volume_only live_trading_enabled max_simultaneous_positions : Key
  max_initial_capital_usd max_additional_funding_usd : Key

pub data ConfigError : Type 0 where
  missing : Key → ConfigError
  must_be_true : Key → ConfigError
  must_be_boolean : Key → ConfigError
  below_one : Key → ConfigError
  not_a_number : Key → ConfigError

abbrev pub present : Key → Option ConfigValue → Result ConfigError ConfigValue
present k none = err (missing k)
present k (some v) = ok v

-- `value is not True` raises
abbrev pub must_be_true_at : Key → ConfigValue → Result ConfigError Bool
must_be_true_at k (boolean true) = ok true
must_be_true_at k (boolean false) = err (must_be_true k)
must_be_true_at k (other v) = err (must_be_true k)

unfoldable pub require_true : Key → Option ConfigValue → Result ConfigError Bool
require_true k o = present k o >>= must_be_true_at k

unfoldable pub require_boolean : Key → Option ConfigValue → Result ConfigError Bool
require_boolean k none = err (missing k)
require_boolean k (some (boolean b)) = ok b
require_boolean k (some (other v)) = err (must_be_boolean k)

abbrev convert : Key → Option ℤ → Result ConfigError ℤ
convert k none = err (not_a_number k)
convert k (some n) = ok n

-- `if max_positions < 1: raise`
abbrev at_least_one : ℤ → Result ConfigError (Unit {0})
at_least_one n = if ltb_ℤ n (pos 1) then err (below_one Key.max_simultaneous_positions) else ok tt

module _ (to_int to_decimal : ConfigValue → Option ℤ) where
  unfoldable pub from_dict : RawPolicy → Result ConfigError RealMoneyPolicy
  unfolding require_true require_boolean
  from_dict raw = do
    martingale_forbidden ← require_true Key.martingale raw.forbidden_behaviors.martingale
    averaging_down_forbidden ←
        require_true Key.averaging_down raw.forbidden_behaviors.averaging_down
    recovery_grid_forbidden ← require_true Key.recovery_grid raw.forbidden_behaviors.recovery_grid
    size_increase_forbidden ←
        require_true Key.automatic_size_increase raw.forbidden_behaviors.automatic_size_increase
    compounding_forbidden ← require_true Key.compounding raw.forbidden_behaviors.compounding
    minimum_only ← require_true Key.minimum_volume_only raw.limits.minimum_volume_only
    live_enabled ← require_boolean Key.live_trading_enabled raw.live.live_trading_enabled
    raw_positions ← present Key.max_simultaneous_positions raw.limits.max_simultaneous_positions
    max_positions ← convert Key.max_simultaneous_positions (to_int raw_positions)
    at_least_one max_positions
    raw_capital ← present Key.max_initial_capital_usd raw.live.max_initial_capital_usd
    raw_funding ← present Key.max_additional_funding_usd raw.live.max_additional_funding_usd
    capital ← convert Key.max_initial_capital_usd (to_decimal raw_capital)
    funding ← convert Key.max_additional_funding_usd (to_decimal raw_funding)
    ok (record {
      live_trading_enabled = live_enabled;
      max_initial_capital_usd = capital;
      max_additional_funding_usd = funding;
      max_simultaneous_positions = max_positions;
      minimum_volume_only = true;
      martingale_forbidden = martingale_forbidden;
      averaging_down_forbidden = averaging_down_forbidden;
      recovery_grid_forbidden = recovery_grid_forbidden;
      automatic_size_increase_forbidden = size_increase_forbidden;
      compounding_forbidden = compounding_forbidden;
    })

  -- What an accepted configuration has, and what the file said for it.
  pub record IsFrozen (raw : RawPolicy) (p : RealMoneyPolicy) : Type 0 where
    pub martingale : p.martingale_forbidden ≡ true
    pub martingale_stated : raw.forbidden_behaviors.martingale ≡ some (boolean true)
    pub averaging_down : p.averaging_down_forbidden ≡ true
    pub averaging_down_stated : raw.forbidden_behaviors.averaging_down ≡ some (boolean true)
    pub recovery_grid : p.recovery_grid_forbidden ≡ true
    pub recovery_grid_stated : raw.forbidden_behaviors.recovery_grid ≡ some (boolean true)
    pub automatic_size_increase : p.automatic_size_increase_forbidden ≡ true
    pub automatic_size_increase_stated :
        raw.forbidden_behaviors.automatic_size_increase ≡ some (boolean true)
    pub compounding : p.compounding_forbidden ≡ true
    pub compounding_stated : raw.forbidden_behaviors.compounding ≡ some (boolean true)
    pub minimum_only : p.minimum_volume_only ≡ true
    pub minimum_only_stated : raw.limits.minimum_volume_only ≡ some (boolean true)
    pub positions : pos 1 ≤ℤ p.max_simultaneous_positions
    pub live_stated : raw.live.live_trading_enabled ≡ some (boolean p.live_trading_enabled)
    pub positions_stated :
        (v : ConfigValue) × (raw.limits.max_simultaneous_positions ≡ some v)
        × (to_int v ≡ some p.max_simultaneous_positions)
    pub capital_stated :
        (v : ConfigValue) × (raw.live.max_initial_capital_usd ≡ some v)
        × (to_decimal v ≡ some p.max_initial_capital_usd)
    pub funding_stated :
        (v : ConfigValue) × (raw.live.max_additional_funding_usd ≡ some v)
        × (to_decimal v ≡ some p.max_additional_funding_usd)

  -- A configuration that from_dict accepts forbids all five behaviours because the file says so,
  -- sizes by the minimum only because the file says so, allows at least one position, and has the
  -- file's own switch for live trading, number of positions, initial capital and additional funding.
  pub from_dict-IsFrozen :
      (raw : RawPolicy) (p : RealMoneyPolicy) → from_dict raw ≡ ok p → IsFrozen raw p
  unfolding from_dict
  from_dict-IsFrozen raw p h = record {
    martingale = ground arith;
    martingale_stated = ground arith;
    averaging_down = ground arith;
    averaging_down_stated = ground arith;
    recovery_grid = ground arith;
    recovery_grid_stated = ground arith;
    automatic_size_increase = ground arith;
    automatic_size_increase_stated = ground arith;
    compounding = ground arith;
    compounding_stated = ground arith;
    minimum_only = ground arith;
    minimum_only_stated = ground arith;
    positions = ground arith;
    live_stated = ground arith;
    positions_stated = elim (Option-cases raw.limits.max_simultaneous_positions) [
      | inl absent ↦ absurd (ground arith)
      | inr (v, stated) ↦ (v, stated, ground arith)
    ];
    capital_stated = elim (Option-cases raw.live.max_initial_capital_usd) [
      | inl absent ↦ absurd (ground arith)
      | inr (v, stated) ↦ (v, stated, ground arith)
    ];
    funding_stated = elim (Option-cases raw.live.max_additional_funding_usd) [
      | inl absent ↦ absurd (ground arith)
      | inr (v, stated) ↦ (v, stated, ground arith)
    ];
  }
