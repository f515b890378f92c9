-- ===== src/Session/RingBuffer.antt =====
-- src/lumina/session/ring_buffer.py: the bounded buffer of a session's last exchanges.
-- A timestamp is a number of clock ticks, handed in where the source reads the clock. Each method
-- holds the lock for its whole access, so a method is one step. A field of a transcript record is
-- `none` where its key is missing.
pub mod Window
mod Examples
use lumina_framework.Base.{
  ℕ, ◌+◌, ◌-◌, String, Option, none, some, List, [], ◌∷◌, ◌++◌, get_or, length, drop, ltb,
  if◌then◌else◌,
}

abbrev pub default_buffer_size : ℕ
default_buffer_size = 10

pub record TurnRecord : Type 0 where
  pub timestamp : ℕ
  pub user_message : String
  pub llm_response : String
  pub turn_number : ℕ
  pub domain_id : String

pub record TranscriptRecord : Type 0 where
  pub timestamp : Option ℕ
  pub user_message : Option String
  pub llm_response : Option String
  pub domain_id : Option String

-- The deque: its bound and its elements, the oldest first.
pub record RingBuffer : Type 0 where
  pub maxlen : ℕ
  pub buf : List TurnRecord

-- `max(maxlen, 1)`. A negative argument acts as 0 does.
unfoldable pub init : ℕ → RingBuffer
init maxlen = record { maxlen = if ltb maxlen 1 then 1 else maxlen; buf = [] }

-- `deque.append`: the oldest element goes where the deque is full.
unfoldable pub append : RingBuffer → TurnRecord → RingBuffer
append b r = record b {
  buf = if ltb (length b.buf) b.maxlen then b.buf ++ r ∷ [] else drop 1 (b.buf ++ r ∷ []);
}

unfoldable pub push : ℕ → RingBuffer → String → String → ℕ → String → RingBuffer
push now b user_message llm_response turn_number domain_id = append b (record {
  timestamp = now;
  user_message = user_message;
  llm_response = llm_response;
  turn_number = turn_number;
  domain_id = domain_id;
})

unfoldable pub clear : RingBuffer → RingBuffer
clear b = record b { buf = [] }

unfoldable pub turn_of : ℕ → TranscriptRecord → TurnRecord
turn_of idx r = record {
  timestamp = get_or r.timestamp 0;
  user_message = get_or r.user_message "";
  llm_response = get_or r.llm_response "";
  turn_number = idx;
  domain_id = get_or r.domain_id "";
}

-- The loop of `hydrate`; `idx` is the counter of `enumerate`.
unfoldable pub hydrate_from : ℕ → RingBuffer → List TranscriptRecord → RingBuffer
hydrate_from idx b [] = b
hydrate_from idx b (r ∷ records) = hydrate_from (idx + 1) (append b (turn_of idx r)) records

unfoldable pub hydrate : RingBuffer → List TranscriptRecord → RingBuffer
hydrate b records = hydrate_from 0 (clear b) records

unfoldable pub snapshot : RingBuffer → List TurnRecord
snapshot b = b.buf

unfoldable pub size : RingBuffer → ℕ
size b = length b.buf
