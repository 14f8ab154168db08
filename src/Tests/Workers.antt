-- ===== src/Tests/Workers.antt =====
-- One turn of the reaper over an ephemeral agent whose time is over.
use ai_iam_platform.Prelude.{◌≡◌, ◌*◌, ◌+◌, inl, refl, true, none, some, In}
use ai_iam_platform.Model.{micros, Agent, AgentStatus}
use ai_iam_platform.Service.{return}
use ai_iam_platform.Revocation.Sample.{sample_redis}
use ai_iam_platform.Agents.Rows.{is_due}
use ai_iam_platform.Workers.Rotator.{
  ReapSummary, ReaperFresh, decommission_expired_ephemeral_agents,
}
use ai_iam_platform.Workers.Rotator.Reaped.{reaper_retires}
use ai_iam_platform.Tests.{agent_of}
use ai_iam_platform.Tests.Agents.{lone_world, lone-IsKeyed}

abbrev expired_agent : Agent
expired_agent = record (agent_of 1) { is_ephemeral = true; decommission_at = some (8 * micros) }

abbrev reaper_turn : ReaperFresh sample_redis.Store
reaper_turn = record {
  reaper = 70;
  process = 77;
  trace_of = λ i. i + 500;
  now = 9 * micros;
  cut_of = λ i. none;
}

reaper_retires_example :
    ((s : ReapSummary) × ((decommission_expired_ephemeral_agents sample_redis true reaper_turn
          (lone_world expired_agent)).0
        ≡ return s))
    × ((y : Agent) × In y
          (decommission_expired_ephemeral_agents sample_redis true reaper_turn
            (lone_world expired_agent)).1.committed.agents
        × (y.id ≡ 1))
    × ((y : Agent)
        → In y
            (decommission_expired_ephemeral_agents sample_redis true reaper_turn
              (lone_world expired_agent)).1.committed.agents
        → y.id ≡ 1
        → y.status ≡ AgentStatus.decommissioned)
unfolding is_due
reaper_retires_example =
    reaper_retires sample_redis reaper_turn (lone_world expired_agent) expired_agent
      (lone-IsKeyed expired_agent) refl (inl refl) refl refl refl
