-- ===== src/Profile/Examples.antt =====
-- Examples of the Team lookups and of validation.
use alt_tui.Prelude.{◌≡◌, refl, ◌↔◌, some, true, In}
use alt_tui.Fixtures.{team, lead, reviewer, coder}
use alt_tui.Profile.{
  agent, agents, peer_agent_for, peer_agents_for, specialist_for, specialists_for, contains_id,
}
use alt_tui.Profile.Peers.{
  Distinct, agent_ids, peer_agent_for_symm, peer_agent_for_iff_peer_agents_for,
}
use alt_tui.Profile.Specialists.{specialist_for_iff_specialists_for}

agent-lead : agent team "lead" ≡ some lead
unfolding agent
agent-lead = refl

agent-reviewer : agent team "reviewer" ≡ some reviewer
unfolding agent
agent-reviewer = refl

peer_agent_for_symm_example :
    (peer_agent_for team lead "reviewer" ≡ some reviewer)
    ↔ (peer_agent_for team reviewer "lead" ≡ some lead)
peer_agent_for_symm_example =
    peer_agent_for_symm team "lead" "reviewer" lead reviewer agent-lead agent-reviewer

team-Distinct : Distinct (agent_ids (agents team))
unfolding contains_id
team-Distinct = (refl, (refl, tt))

peer_agent_for_iff_peer_agents_for_example :
    (peer_agent_for team lead "reviewer" ≡ some reviewer)
    ↔ (In reviewer (peer_agents_for team lead) × (reviewer.id ≡ "reviewer"))
peer_agent_for_iff_peer_agents_for_example =
    peer_agent_for_iff_peer_agents_for team lead "reviewer" reviewer team-Distinct

specialist_for_iff_specialists_for_example : (specialist_for team lead "coder" ≡ some coder) ↔ (
    In coder (specialists_for team lead)
    × (coder.id ≡ "coder")
    × (contains_id lead.specialists "coder" ≡ true))
specialist_for_iff_specialists_for_example =
    specialist_for_iff_specialists_for team lead "coder" coder
