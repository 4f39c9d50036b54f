-- ===== src/Process/Messages.antt =====
-- `ProcState` of src/types/app_state.rs and `ProcMessage` of src/http_proxy/mod.rs. The sender that a deletion is
-- confirmed through is left out.
use odd_box.Base.{Bytes}

pub data ProcState : Type 0 where
  faulty stopped starting stopping running remote dir_server docker : ProcState

pub data ProcMessage : Type 0 where
  start_all stop_all : ProcMessage
  start stop delete : Bytes → ProcMessage
