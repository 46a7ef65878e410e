-- ===== src/Examples/Callers.antt =====
-- Permissions of callers, messages of the agent and CPU quantities at concrete values.
use or3_sandbox.Model.Cpu.{parse_cpu_quantity, cpu_string}
use or3_sandbox.Values.Cpu.{parse_cpu_quantity-cpu_string}
use or3_sandbox.Base.{
  negsuc, true, false, ◌≡◌, refl, Text, [], ◌∷◌, ◌++◌, some, inr, codes, eq_text, equal_fold,
  to_lower, trim_space, arith,
}
use or3_sandbox.Auth.Identity.{
  TenantContext, exec_run, contains_permission, role_of, role_permissions, granted_by,
  has_permission,
}
use or3_sandbox.Auth.Permissions.{Warranted, has_permission-Warranted, has_permission-narrows}
use or3_sandbox.Agent.Protocol.{
  Message, Json, put_uint32, validate_envelope, write_message, read_message,
}
use or3_sandbox.Agent.Frames.{read_message-write_message}
use or3_sandbox.Examples.Fixtures.{alice, quota_of}

-- A service account that may run commands.
abbrev robot : TenantContext
robot = record {
  tenant_id = alice;
  quota = quota_of alice;
  identity = record {
    subject = codes "robot";
    tenant_id = alice;
    roles = codes " Service " ∷ [];
    scopes = codes "EXEC.run" ∷ [];
    service_account_id = codes "sa-1";
    is_service = true;
    auth_method = codes "jwt";
  };
}

has_permission-Warranted_example : Warranted robot exec_run
unfolding has_permission contains_permission granted_by role_permissions role_of eq_text equal_fold
    to_lower trim_space
has_permission-Warranted_example = has_permission-Warranted robot exec_run refl

has_permission-narrows_example :
    has_permission (record robot { identity = record robot.identity { scopes = [] } }) exec_run
    ≡ true
unfolding has_permission contains_permission granted_by role_permissions role_of eq_text equal_fold
    to_lower trim_space
has_permission-narrows_example = has_permission-narrows robot exec_run refl

abbrev ping : Message
ping = record { id = codes "1"; op = codes "ping"; ok = false; error = []; result = [] }

-- An encoder that knows one message.
abbrev one_message : Json
one_message = record { marshal = λ m. some (codes "{ping}"); unmarshal = λ bytes. some ping }

abbrev next_bytes : Text
next_bytes = 0 ∷ 0 ∷ []

read_message-write_message_example :
    read_message one_message ((put_uint32 6 ++ codes "{ping}") ++ next_bytes)
    ≡ inr (ping, next_bytes)
unfolding write_message validate_envelope trim_space
read_message-write_message_example =
    read_message-write_message one_message ping (codes "{ping}") (put_uint32 6 ++ codes "{ping}")
      next_bytes refl refl (omega arith) refl

parse_cpu_quantity-cpu_string_example :
    parse_cpu_quantity (cpu_string (negsuc 1_249)) ≡ some (negsuc 1_249)
parse_cpu_quantity-cpu_string_example = parse_cpu_quantity-cpu_string (negsuc 1_249) (omega arith)
