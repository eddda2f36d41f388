-- ===== src/Registry.antt =====
-- driver/registry.c: the patterns of hardware ids, which decide what devices the driver takes.
pub mod Match
pub mod Rounds
pub mod Loop
mod Tests
use mathlib.Core.Option
use fdlvling.Base.{
  ℕ, zero, suc, ◌+◌, ◌-◌, ◌^◌, Bool, true, false, not, ◌&&◌, ◌||◌, Option, none, some, List, [],
  ◌∷◌, add32, ltb, ◌==◌, if◌then◌else◌,
}

-- '*'.
abbrev pub star : ℕ
star = 42

-- `i == Length || Pattern[i] == 0`
unfoldable pub at_end : (ℕ → ℕ) → ℕ → ℕ → Bool
at_end pattern length i = (i == length) || (pattern i == 0)

-- A round of the loop of PatternMatch: it returns, or goes on with `i`, `mark` and `j`.
pub data MatchRound : Type 0 where
  decided : Bool → MatchRound
  goes_on : ℕ → ℕ → ℕ → MatchRound

pub match_round : (ℕ → ℕ) → (ℕ → ℕ) → ℕ → ℕ → ℕ → ℕ → MatchRound
unfolding at_end
match_round name pattern length i mark j =
    if ltb i length && (pattern i == star)
    then (if at_end pattern length (i + 1) then decided true else goes_on (i + 1) (i + 1) j)
    else if name j == 0
    then decided (at_end pattern length i)
    else if (i == length) || not (pattern i == name j)
    then (if mark == 0 then decided false else goes_on mark mark (j - (i - mark) + 1))
    else goes_on (i + 1) mark (j + 1)

-- The loop, by the rounds left.
pub after_match : MatchRound → (ℕ → ℕ → ℕ → Option Bool) → Option Bool
after_match (decided b) next = some b
after_match (goes_on i mark j) next = next i mark j

pub match_rounds : ℕ → (ℕ → ℕ) → (ℕ → ℕ) → ℕ → ℕ → ℕ → ℕ → Option Bool
unfolding match_round after_match
match_rounds zero name pattern length i mark j = none
match_rounds (suc n) name pattern length i mark j =
    after_match (match_round name pattern length i mark j) (match_rounds n name pattern length)

-- PatternMatch.
pub pattern_match : ℕ → (ℕ → ℕ) → (ℕ → ℕ) → ℕ → Option Bool
unfolding match_rounds
pattern_match fuel name pattern length = match_rounds fuel name pattern length 0 0 0

-- REG_SZ and REG_DWORD.
abbrev pub reg_sz : ℕ
reg_sz = 1

abbrev pub reg_dword : ℕ
reg_dword = 4

-- A value of the registry, as RtlQueryRegistryValues hands it to a query routine: its type, its data
-- and its length.
pub record Value : Type 0 where
  pub type : ℕ
  pub data_at : ℕ → ℕ
  pub length : ℕ

-- DwordQueryRoutine, for an entry with an EntryContext that holds `old`; `dword` reads a ULONG.
pub dword_query : ((ℕ → ℕ) → ℕ) → Value → ℕ → ℕ
dword_query dword v old =
    if not (v.type == reg_dword) || not (v.length == 4) then old else dword v.data_at

-- `while(*HardwareIDs++);` by the characters left: the position behind the next NUL.
pub skip_id : ℕ → (ℕ → ℕ) → ℕ → Option ℕ
skip_id zero ids p = none
skip_id (suc n) ids p =
    let rest = skip_id n ids (p + 1) in if ids p == 0 then some (p + 1) else rest

pub from_id : Option ℕ → (ℕ → Option ℕ) → Option ℕ
from_id none next = none
from_id (some p) next = next p

-- The loop of CompareQueryRoutine from position `p` of the hardware ids on; `fuel` bounds its rounds,
-- those of PatternMatch and the characters of an id.
pub tried : Option Bool → Option ℕ → ℕ → Option ℕ
tried none rest count = none
tried (some true) rest count = some (add32 count 1)
tried (some false) rest count = rest

pub compare_ids : ℕ → ℕ → (ℕ → ℕ) → ℕ → Value → ℕ → Option ℕ
unfolding pattern_match skip_id from_id tried
compare_ids zero fuel ids p v count = none
compare_ids (suc n) fuel ids p v count =
    let rest = from_id (skip_id fuel ids p) (λ q. compare_ids n fuel ids q v count) in
    if ids p == 0
    then some count
    else tried (pattern_match fuel (λ j. ids (p + j)) v.data_at v.length) rest count

-- CompareQueryRoutine, for an entry with an EntryContext that holds `count`, and a Context.
pub compare_query : ℕ → (ℕ → ℕ) → Value → ℕ → Option ℕ
unfolding compare_ids
compare_query fuel ids v count =
    if not (v.type == reg_sz) then some count else compare_ids fuel fuel ids 0 v count

-- The counters of CheckDeviceConfig.
pub record Counts : Type 0 where
  pub allow_always : ℕ
  pub deny : ℕ
  pub allow : ℕ
  pub tobe_removable : ℕ
  pub tobe_fixed : ℕ

-- What CheckDeviceConfig finds of a device that it takes.
pub record DeviceConfig : Type 0 where
  pub always : Bool
  pub removable : Bool
  pub fixed : Bool

pub decide_config : Counts → Option DeviceConfig
decide_config c =
    if (c.allow_always == 0) && (ltb 0 c.deny || (c.allow == 0))
    then none
    else some (record {
      always = not (c.allow_always == 0);
      removable = not (c.tobe_removable == 0);
      fixed = not (c.tobe_fixed == 0);
    })

-- How IoGetDeviceProperty answers: the buffer is too small for `n` bytes, an error, or the ids.
pub data Property : Type 0 where
  too_small : ℕ → Property
  refused : Property
  given : (ℕ → ℕ) → Property

-- RtlQueryRegistryValues with CompareQueryRoutine for the values of one entry, one after the other.
pub count_values : ℕ → (ℕ → ℕ) → List Value → ℕ → Option ℕ
unfolding compare_query from_id
count_values fuel ids [] count = some count
count_values fuel ids (v ∷ vs) count =
    from_id (compare_query fuel ids v count) (count_values fuel ids vs)

-- The values of the five entries of AddDeviceQueryTable.
pub record Values : Type 0 where
  pub allow_always : List Value
  pub deny : List Value
  pub allow : List Value
  pub tobe_removable : List Value
  pub tobe_fixed : List Value

-- What CheckDeviceConfig uses of the system: whether allocation `i` of `n` bytes succeeds, the answer
-- of IoGetDeviceProperty for a buffer of `n` bytes, and the values that RtlQueryRegistryValues finds.
pub record System : Type 0 where
  pub allocates : ℕ → ℕ → Bool
  pub table_size : ℕ
  pub property : ℕ → Property
  pub values : Values

-- The counters after the query.
pub query_values : ℕ → Values → (ℕ → ℕ) → Option Counts
unfolding count_values Option.bind
query_values fuel v ids = Option.bind (count_values fuel ids v.allow_always 0) (λ always.
    Option.bind (count_values fuel ids v.deny 0) (λ deny.
      Option.bind (count_values fuel ids v.allow 0) (λ allow.
        Option.bind (count_values fuel ids v.tobe_removable 0) (λ removable.
          Option.bind (count_values fuel ids v.tobe_fixed 0) (λ fixed. some (record {
            allow_always = always;
            deny = deny;
            allow = allow;
            tobe_removable = removable;
            tobe_fixed = fixed;
          }))))))

-- CheckDeviceConfig from the answer of IoGetDeviceProperty on, with `held` allocations, the buffer
-- among them: what it returns, and how many of its allocations it leaves. `retry` is the label retry,
-- with the number of allocations and the length of the buffer.
pub answer_config : Option Counts → ℕ → Option (Option DeviceConfig × ℕ)
unfolding decide_config
answer_config none held = none
answer_config (some c) held = some (decide_config c, held)

pub with_property :
    ℕ
    → System
    → ℕ
    → ℕ
    → Property
    → (ℕ → ℕ → Option (Option DeviceConfig × ℕ))
    → Option (Option DeviceConfig × ℕ)
unfolding answer_config query_values
with_property fuel sys i held (too_small n) retry = retry (held - 1) n
with_property fuel sys i held refused retry = some (none, held)
with_property fuel sys i held (given ids) retry =
    if not (sys.allocates (i + 1) sys.table_size)
    then some (none, held - 1)
    else answer_config (query_values fuel sys.values ids) (held + 1 - 2)

-- From the label retry on, by the rounds left; `fuel` is that of the query.
pub config_rounds : ℕ → ℕ → System → ℕ → ℕ → ℕ → Option (Option DeviceConfig × ℕ)
unfolding with_property
config_rounds zero fuel sys i held size = none
config_rounds (suc n) fuel sys i held size =
    if not (sys.allocates i size)
    then some (none, held)
    else with_property fuel sys i (held + 1) (sys.property size) (config_rounds n fuel sys (i + 1))

-- CheckDeviceConfig.
pub check_device_config : ℕ → ℕ → System → Option (Option DeviceConfig × ℕ)
unfolding config_rounds
check_device_config rounds fuel sys = config_rounds rounds fuel sys 0 0 256
