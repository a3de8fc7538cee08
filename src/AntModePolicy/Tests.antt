-- ===== src/AntModePolicy/Tests.antt =====
-- antmode/internal/policy: the theorems at small states.
use station_a.AntMode.{is_valid, storm, normal}
use station_a.Base.{true, false, none, some, List, [], ◌∷◌, ◌≡◌, inl, refl, arith}
use station_a.AntModePolicy.Types.{
  unchanged, changed_from, enter, acknowledge, count_new, insert, Format, Warning, unmanned, manned,
  by_operator, by_automation, Policy, contains,
}
use station_a.AntModePolicy.Acting.{set_mode, evaluate, poll}
use station_a.AntModePolicy.Deciding.{Exited, evaluate-Enters, poll-Exits}
use station_a.AntModePolicy.Remembering.{set_mode-run}
use station_a.AntModePolicy.Standing.{
  dismissing, Standing, polled, evaluated, reparking, run, run-Standing,
}

instance abbrev plain : Format
plain = record { decimal = λ n. "n"; duration = λ d. "d" }

abbrev calm : Policy
calm = record {
  config = record { auto_enter = true; exit_holdoff = 100 };
  state = record {
    mode = normal;
    source = by_operator;
    since = 1;
    seq = 7;
    acked = [];
    dismissed = [];
    quiet_for = 0;
    reason = "";
  };
  last_clean = none;
}

abbrev gale : List Warning
gale = record { id = "w1"; event = "gale" } ∷ []

abbrev stormy : Policy
stormy = record calm {
  state = record calm.state { mode = storm; source = by_automation; quiet_for = 60 };
  last_clean = some 1000;
}

evaluate-Enters_example :
    let r = evaluate 5 gale unmanned false calm in
    (r.1.mode_changed ≡ some normal)
    × (r.0.state.mode ≡ storm)
    × (r.0.state.source ≡ by_automation)
    × (r.0.state.seq ≡ 8)
    × (r.0.state.acked ≡ [])
    × (r.0.state.quiet_for ≡ 0)
    × (r.0.last_clean ≡ none)
unfolding contains
evaluate-Enters_example =
    (evaluate-Enters 5 gale unmanned false calm).0 (refl, refl, refl, refl, inl refl)

poll-Exits_example : Exited stormy (poll 1040 true [] stormy)
poll-Exits_example = (poll-Exits 1040 stormy []).0 (refl, refl, omega arith)

abbrev by_hand : Policy
by_hand = record calm { state = record calm.state { mode = storm; source = by_operator } }

run-Standing_example :
    Standing
      (run (polled 9 true [] ∷ evaluated 10 gale manned false ∷ reparking ∷ []) by_hand)
      storm
run-Standing_example =
    run-Standing (polled 9 true [] ∷ evaluated 10 gale manned false ∷ reparking ∷ []) by_hand storm
      refl (refl, refl)

-- The operator has ended the storm while the gale is active.
abbrev eased : Policy
eased = record {
  config = calm.config;
  state = record {
    mode = normal;
    source = by_operator;
    since = 5;
    seq = 7;
    acked = "w1" ∷ [];
    dismissed = [];
    quiet_for = 0;
    reason = "operator: normal (acknowledged n active warning(s))";
  };
  last_clean = none;
}

set_mode-run_example :
    evaluate 20 gale unmanned false
      (run (polled 8 true gale ∷ polled 9 false gale ∷ dismissing gale ∷ []) eased)
    ≡ (run (polled 8 true gale ∷ polled 9 false gale ∷ dismissing gale ∷ []) eased, unchanged)
unfolding set_mode is_valid enter acknowledge count_new insert contains
set_mode-run_example =
    set_mode-run 5 gale stormy eased (changed_from storm)
      (polled 8 true gale ∷ polled 9 false gale ∷ dismissing gale ∷ []) 20 unmanned false refl refl
      (refl, (refl, (tt, tt)))
