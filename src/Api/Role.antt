-- ===== src/Api/Role.antt =====
-- src/daemon/jsonrpc/mod.rs and the macros of src/daemon/jsonrpc/api.rs: who may call a command.
use revaultd.Prelude.{Result, ok, err}
use revaultd.Control.Session.{Refusal, stakeholder_command, manager_command}

pub data UserRole : Type 0 where
  manager stakeholder manager_stakeholder : UserRole

unfoldable pub stakeholder_only : UserRole → Result Refusal (Unit {0})
stakeholder_only manager = err stakeholder_command
stakeholder_only _ = ok tt

unfoldable pub manager_only : UserRole → Result Refusal (Unit {0})
manager_only stakeholder = err manager_command
manager_only _ = ok tt
