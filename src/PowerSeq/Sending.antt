-- ===== src/PowerSeq/Sending.antt =====
-- powerseq/internal/seq/seq.go: what a sequence sends, and in which order.
use station_a.Base.{String, str_append, List, [], ◌∷◌, ◌++◌, ◌≡◌, ◌≢◌, refl, arith, inl, inr, ◌⊎◌}
use station_a.PowerSeq.Types.{
  Kind, cmd, wol, ResolvedStep, Message, sent_cmd, sent_state, sent_wol, Sequencer,
}
use station_a.PowerSeq.Phases.{record_state}
use station_a.PowerSeq.Observe.{Moment, Outcome, done, failed, blocked}
use station_a.PowerSeq.Run.{Ending, completed, aborted, underway}

-- The commands and wake-on-LAN packets among the messages, without the state publications.
abbrev pub orders : List Message → List Message
orders [] = []
orders (sent_cmd t r a v ∷ ms) = sent_cmd t r a v ∷ orders ms
orders (sent_wol mac b ∷ ms) = sent_wol mac b ∷ orders ms
orders (sent_state p st f r ∷ ms) = orders ms

abbrev sends_of : Kind → ResolvedStep → List Message
sends_of cmd st = sent_cmd (str_append st.slot "/cmd") st.retain st.action st.value ∷ []
sends_of wol st = sent_wol st.mac st.broadcast ∷ []
sends_of k st = []

-- What a step sends when it succeeds.
abbrev pub sends : ResolvedStep → List Message
sends st = sends_of st.kind st

-- The outbox after the steps, in their order.
abbrev pub sent_by : List ResolvedStep → List Message → List Message
sent_by [] out = out
sent_by (st ∷ steps) out = sent_by steps (sends st ++ out)

record_state-orders : (s : Sequencer) → orders (record_state s).outbox ≡ orders s.outbox
unfolding record_state
record_state-orders s = ground arith

-- What an outcome has sent, from the outbox before.
abbrev SentAs : Kind → ResolvedStep → List Message → Outcome → Type 0
SentAs k st out (done t rest) = orders t.outbox ≡ sends_of k st ++ orders out
SentAs k st out (failed reason t rest) =
    (orders t.outbox ≡ orders out) ⊎ ((k ≡ cmd) × (orders t.outbox ≡ sends_of k st ++ orders out))
SentAs k st out (blocked t) = orders t.outbox ≡ orders out

pub Outcome-cases :
    (o : Outcome)
    → ((r : String) × (t : Sequencer) × (rest : List Moment) × (o ≡ failed r t rest))
      ⊎ (((t : Sequencer) × (rest : List Moment) × (o ≡ done t rest))
          ⊎ ((t : Sequencer) × (o ≡ blocked t)))
Outcome-cases (failed r t rest) = inl (r, t, rest, refl)
Outcome-cases (done t rest) = inr (inl (t, rest, refl))
Outcome-cases (blocked t) = inr (inr (t, refl))

-- The steps that succeeded are a proper prefix of the list, and they alone have sent.
pub record SentPrefix (steps : List ResolvedStep) (before : List Message) (t : Sequencer)
    : Type 0 where
  pub succeeded : List ResolvedStep
  pub pending : List ResolvedStep
  pub split : steps ≡ succeeded ++ pending
  pub stopped : pending ≢ []
  pub sent : orders t.outbox ≡ sent_by succeeded (orders before)

-- Those and one more have sent: the command at which the sequence stopped, whose publish
-- reported an error but had been handed over.
pub record SentOneMore (steps : List ResolvedStep) (before : List Message) (t : Sequencer)
    : Type 0 where
  pub succeeded : List ResolvedStep
  pub last : ResolvedStep
  pub pending : List ResolvedStep
  pub split : steps ≡ succeeded ++ last ∷ pending
  pub is_cmd : last.kind ≡ cmd
  pub sent : orders t.outbox ≡ sent_by (succeeded ++ last ∷ []) (orders before)

-- What a sequence has sent, by how it ended.
abbrev pub RunSent : List ResolvedStep → List Message → Ending → Type 0
RunSent steps before (completed t rest) = orders t.outbox ≡ sent_by steps (orders before)
RunSent steps before (aborted t rest) = SentPrefix steps before t ⊎ SentOneMore steps before t
RunSent steps before (underway t) = SentPrefix steps before t
