-- ===== src/Tests/Sample.antt =====
-- Flows whose matches and actions are their own text.
use sdnagent.Base.{ℕ, Str, String, codes, some, [], ◌∷◌, pos}
use sdnagent.Flow.{OvsText, Flow}

abbrev pub text : OvsText
text = record {
  Match = Str;
  Action = Str;
  match_text = λ s. some s;
  match_go_string = λ s. s;
  action_text = λ s. some s;
  action_go_string = λ s. s;
}

-- F(table, priority, match, action)
abbrev pub flow : ℕ → ℕ → String → String → Flow Str Str
flow table priority match action = record {
  priority = pos priority;
  protocol = [];
  in_port = pos 0;
  matches = codes match ∷ [];
  table = pos table;
  idle_timeout = pos 0;
  cookie = 0;
  actions = codes action ∷ [];
}

abbrev pub drop_all : Flow Str Str
drop_all = flow 0 1000 "ip" "drop"

abbrev pub to_local : Flow Str Str
to_local = flow 0 27200 "in_port=LOCAL" "normal"

abbrev pub learned : Flow Str Str
learned = flow 12 10000 "tcp" "normal"
