-- ===== src/Record/Names.antt =====
-- The names of scopes, types and tiers in src/core/types.h, and the way back.
use Prim.Native.String.{String}
use text.Mathlib.Text.{◌==◌}
use amind.Prelude.{Bool, ◌||◌, ◌≡◌, refl, if◌then◌else◌}
use amind.Record.{
  MemoryScope, private, agent_shared, MemoryType, user_profile, feedback, domain_knowledge,
  reference, skill, ephemeral, MemoryTier, working, short_term, long_term,
}

-- `==` of `std::string`
abbrev pub same_name : String → String → Bool
same_name a b = a == b

pub scope_to_string : MemoryScope → String
scope_to_string private = "private"
scope_to_string agent_shared = "agent_shared"

pub scope_from_string : String → MemoryScope
scope_from_string s = if s == "agent_shared" then agent_shared else private

pub memory_type_to_string : MemoryType → String
memory_type_to_string user_profile = "user_profile"
memory_type_to_string feedback = "feedback"
memory_type_to_string domain_knowledge = "domain_knowledge"
memory_type_to_string reference = "reference"
memory_type_to_string skill = "skill"
memory_type_to_string ephemeral = "ephemeral"

pub memory_type_from_string : String → MemoryType
memory_type_from_string s =
    if s == "user_profile"
    then user_profile
    else if s == "feedback"
    then feedback
    else if s == "domain_knowledge"
    then domain_knowledge
    else if s == "reference"
    then reference
    else if s == "skill"
    then skill
    else ephemeral

pub memory_tier_to_string : MemoryTier → String
memory_tier_to_string working = "working"
memory_tier_to_string short_term = "short_term"
memory_tier_to_string long_term = "long_term"

pub memory_tier_from_string : String → MemoryTier
memory_tier_from_string s =
    if s == "short_term" || s == "consolidated"
    then short_term
    else if s == "long_term"
    then long_term
    else working

pub default_scope_for_type : MemoryType → MemoryScope
default_scope_for_type user_profile = private
default_scope_for_type feedback = private
default_scope_for_type ephemeral = private
default_scope_for_type domain_knowledge = agent_shared
default_scope_for_type reference = agent_shared
default_scope_for_type skill = agent_shared

scope-round_trip : (c : MemoryScope) → scope_from_string (scope_to_string c) ≡ c
unfolding scope_from_string scope_to_string
scope-round_trip private = refl
scope-round_trip agent_shared = refl

type-round_trip : (c : MemoryType) → memory_type_from_string (memory_type_to_string c) ≡ c
unfolding memory_type_from_string memory_type_to_string
type-round_trip user_profile = refl
type-round_trip feedback = refl
type-round_trip domain_knowledge = refl
type-round_trip reference = refl
type-round_trip skill = refl
type-round_trip ephemeral = refl

tier-round_trip : (c : MemoryTier) → memory_tier_from_string (memory_tier_to_string c) ≡ c
unfolding memory_tier_from_string memory_tier_to_string
tier-round_trip working = refl
tier-round_trip short_term = refl
tier-round_trip long_term = refl

-- Every scope, type and tier is read back from its name.
names-round_trip :
    (c : MemoryScope) (t : MemoryType) (q : MemoryTier)
    → (scope_from_string (scope_to_string c) ≡ c)
      × (memory_type_from_string (memory_type_to_string t) ≡ t)
      × (memory_tier_from_string (memory_tier_to_string q) ≡ q)
names-round_trip c t q = (scope-round_trip c, type-round_trip t, tier-round_trip q)
