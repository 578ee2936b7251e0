-- ===== src/Graph/Threads.antt =====
-- The key of a conversation's checkpoints: ragcore/src/ragcore/graph/threads.py.
use Prim.Native.String.{String, ◌++◌}
use itsm_poc.Domain.Records.{Uuid}
use itsm_poc.Messaging.Bodies.{UuidText}

unfoldable pub checkpoint_thread_id : UuidText → (tenant requester session : Uuid) → String
checkpoint_thread_id m tenant requester session =
    m.uuid_text tenant ++ ":" ++ m.uuid_text requester ++ ":" ++ m.uuid_text session
