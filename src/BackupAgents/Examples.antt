-- ===== src/BackupAgents/Examples.antt =====
-- Two backups and a third that registers.
use attested_capital.Base.{◌≡◌, refl, [], ◌∷◌}
use attested_capital.BackupAgents.{BackupAgent, register_backup_agent, get_backup_agents}
use attested_capital.BackupAgents.Ranks.{rank, register_backup_agent-rank}

abbrev steady : BackupAgent
steady = record {
  id = "a";
  endpoint = "https://a";
  registered_at = 10;
  last_heartbeat = 90;
  heartbeat_streak = 4;
}

abbrev late : BackupAgent
late = record steady { id = "b"; endpoint = "https://b"; registered_at = 20; heartbeat_streak = 0 }

abbrev newcomer : BackupAgent
newcomer = record {
  id = "c";
  endpoint = "https://c";
  registered_at = 100;
  last_heartbeat = 100;
  heartbeat_streak = 0;
}

register_test : (register_backup_agent 100 "c" "https://c" (late ∷ steady ∷ [])).0 ≡ 3
unfolding register_backup_agent
register_test = refl

register_backup_agent-rank_example :
    (register_backup_agent 100 "c" "https://c" (late ∷ steady ∷ [])).0
    ≡ rank "c"
        (get_backup_agents (register_backup_agent 100 "c" "https://c" (late ∷ steady ∷ [])).1)
unfolding register_backup_agent
register_backup_agent-rank_example =
    register_backup_agent-rank newcomer 100 "https://c" (late ∷ steady ∷ []) refl
      ((refl, (refl, tt)), ((refl, tt), (tt, tt))) ((λ k. refl), ((λ k. refl), ((λ k. cc), tt)))
