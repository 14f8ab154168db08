-- ===== src/Agents/Rows.antt =====
-- The operations on the rows of agents and of their API keys
-- (backend/app/repositories/agent_repo.py, backend/app/repositories/api_key_repo.py). The column
-- `updated_at` is not kept.
use ai_iam_platform.Prelude.{
  ℕ, String, Bool, true, false, Option, none, some, List, ◌==◌, ◌&&◌, ℕ_eq, string_eq, leb, select,
  count, length, update_where, take, drop,
}
use ai_iam_platform.Model.{Ident, Agent, AgentStatus, ApiKey, is_active_status}
use ai_iam_platform.Service.{Db}

unfoldable pub same_status : AgentStatus → AgentStatus → Bool
same_status AgentStatus.pending AgentStatus.pending = true
same_status AgentStatus.active AgentStatus.active = true
same_status AgentStatus.suspended AgentStatus.suspended = true
same_status AgentStatus.decommissioned AgentStatus.decommissioned = true
same_status _ _ = false

-- `update(Agent).where(Agent.id == agent_id)`
unfoldable pub update_agent : Ident → (Agent → Agent) → Db → Db
update_agent i f db = record db { agents = update_where (λ a. a.id == i) f db.agents }

abbrev pub with_status : AgentStatus → Agent → Agent
with_status s a = record a { status = s }

unfoldable pub update_status : Ident → AgentStatus → Db → Db
unfolding update_agent
update_status i s = update_agent i (with_status s)

unfoldable pub set_spiffe_id : Ident → String → Db → Db
unfolding update_agent
set_spiffe_id i spiffe_id = update_agent i (λ a. record a { spiffe_id = some spiffe_id })

unfoldable pub set_activated_by : Ident → Ident → Db → Db
unfolding update_agent
set_activated_by i user = update_agent i (λ a. record a { activated_by_user_id = some user })

-- `skip` and `limit` of the rows in the order of the table.
unfoldable pub has_status : Option AgentStatus → Agent → Bool
unfolding same_status
has_status none a = true
has_status (some s) a = same_status a.status s

unfoldable pub list_by_org : List Agent → Ident → Option AgentStatus → ℕ → ℕ → List Agent
unfolding has_status
list_by_org agents org status skip limit =
    take limit (drop skip (select (has_status status) (select (λ a. a.org_id == org) agents)))

unfoldable pub has_parent : Agent → Bool
has_parent a = elim a.parent_agent_id [ none ↦ false | some i ↦ true ]

unfoldable pub count_by_org : List Agent → Ident → ℕ × ℕ
unfolding has_parent
count_by_org agents org =
    let rows = select (λ a. a.org_id == org) agents in (length rows, count has_parent rows)

unfoldable pub list_by_parent : List Agent → Ident → List Agent
list_by_parent agents parent =
    select (λ a. elim a.parent_agent_id [ none ↦ false | some i ↦ i == parent ]) agents

-- `Agent.decommission_at <= before`, which no row without a time satisfies.
unfoldable pub is_due : ℕ → Option ℕ → Bool
is_due before none = false
is_due before (some t) = leb t before

unfoldable pub get_expiring_ephemeral : List Agent → ℕ → List Agent
unfolding is_due is_active_status
get_expiring_ephemeral agents before =
    select (λ a. a.is_ephemeral && is_due before a.decommission_at && is_active_status a.status)
      agents

unfoldable pub get_active_keys_for_agent : List ApiKey → Ident → List ApiKey
get_active_keys_for_agent keys agent = select (λ k. (k.agent_id == agent) && k.is_active) keys

-- `update(ApiKey).where(ApiKey.key_id == key_id)`
unfoldable pub update_key : String → (ApiKey → ApiKey) → Db → Db
update_key i f db = record db { api_keys = update_where (λ k. k.key_id == i) f db.api_keys }

abbrev pub inactive : ApiKey → ApiKey
inactive k = record k { is_active = false }

unfoldable pub deactivate_key : String → Db → Db
unfolding update_key
deactivate_key i = update_key i inactive
