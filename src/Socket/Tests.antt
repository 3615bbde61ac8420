-- ===== src/Socket/Tests.antt =====
-- Addresses, and connections over a system whose calls all succeed.
use tools_cxx.Prelude.{ℕ, ◌≡◌, inl, refl, arith, false, true, none, some, [], ◌∷◌, ◌++◌, codes}
use tools_cxx.Prelude.Int.{pos, negsuc}
use tools_cxx.Socket.Endian.{little, big}
use tools_cxx.Socket.Address.{
  Memory, AddressText, invalid, of_port, of_text, to_port, to_ip_and_port, af_inet,
}
use tools_cxx.Socket.Address.Fields.{HasPort, HasIp, of_port-HasPort}
use tools_cxx.Socket.Address.Texts.{IsShort, ip_text, to_ip_and_port_whole, of_text-invalid}
use tools_cxx.Socket.Calls.{Os, eagain, eintr, sys_accept, done, undefined}
use tools_cxx.Socket.Calls.Messages.{IsDocumented}
use tools_cxx.Socket.Connection.{
  SocketGuard, ConnSocket, Store, put_object, put_guard, construct_of, copy, share, destroy, assign,
  release,
}
use tools_cxx.Socket.Connection.Counts.{holders, IsValid}
use tools_cxx.Socket.Connection.Shares.{put_held-IsValid}
use tools_cxx.Socket.Connection.Ends.{Closes, IsReleased, destroy-IsReleased}
use tools_cxx.Socket.Connection.Assign.{assign-IsValid, assign_self-undefined}
use tools_cxx.Socket.Connection.Steps.{
  constructs_of, copies, destroys, stays, goes, Reaches-IsValid,
}
use tools_cxx.Socket.Server.{ServerSocket, accept}
use tools_cxx.Socket.Server.Accept.{IsAnswered, accept-IsAnswered}

abbrev noise : Memory
noise _ = 255

of_port-HasPort_example :
    HasPort little (of_port little noise 8080 af_inet true) af_inet 8080
    × HasIp (of_port little noise 8080 af_inet true) af_inet true
of_port-HasPort_example = of_port-HasPort little noise 8080 af_inet true (omega arith) (inl refl)

abbrev texts : AddressText
texts = record {
  inet_ntop = λ _ _. codes "0.0.0.0";
  inet_pton = λ _ _. invalid;
  decimal = λ _. codes "80";
}

texts-IsShort : IsShort texts
texts-IsShort = record {
  inet = λ m. omega arith;
  inet6 = λ m. omega arith;
  decimal = λ n h. omega arith;
}

noise_text :
    to_ip_and_port big texts noise 64
    ≡ some (ip_text big texts noise ++ b':' ∷ texts.decimal (to_port big noise))
unfolding to_port
noise_text = to_ip_and_port_whole big texts texts-IsShort noise (omega arith)

of_text-invalid_example :
    (next : Memory) × (of_text big texts noise (codes "localhost") 80 af_inet ≡ some next)
    × HasPort big next af_inet 80
    × HasIp next af_inet false
of_text-invalid_example =
    of_text-invalid big texts noise (codes "localhost") 80 af_inet (omega arith) (inl refl) refl

abbrev calm : Os
calm = record {
  answer = λ _. record { ret = pos 7; errno = eagain; written = λ _. 0 };
  logged = λ _. eintr;
  context = λ _. record { now = []; tid = []; file = []; line = pos 0 };
}

calm-Closes : Closes calm
calm-Closes fd calls = refl

abbrev empty : Store
empty = record { objects = λ _. none; guards = λ _. none; calls = [] }

empty-IsValid : IsValid empty 3
empty-IsValid = record {
  below = λ at h. refl;
  held = λ at g o e own. absurd (cc e);
  counted = λ g q e. absurd (cc e);
  positive = λ g q e. absurd (cc e);
}

abbrev connection : ConnSocket
connection = record { guard = some 0; remote_addr = noise }

abbrev guard_of : ℕ → SocketGuard
guard_of count = record { sockfd = pos 5; count = count }

abbrev one : Store
one = put_object (put_guard empty 0 (some (guard_of 1))) 0 (some connection)

abbrev two : Store
two = put_object (put_guard one 0 (some (guard_of 2))) 1 (some connection)

abbrev left : Store
left = put_object (put_guard two 0 (some (guard_of 1))) 0 none

one-IsValid : IsValid one 3
unfolding holders
one-IsValid =
    put_held-IsValid empty-IsValid 0 connection 0 (guard_of 1) (omega arith) refl refl refl

two-IsValid : IsValid two 3
unfolding holders
two-IsValid = put_held-IsValid one-IsValid 1 connection 0 (guard_of 2) (omega arith) refl refl refl

Reaches-IsValid_example : IsValid left 3
unfolding construct_of copy share destroy release
Reaches-IsValid_example = Reaches-IsValid calm calm-Closes 3 empty left empty-IsValid (
    goes empty one left (constructs_of 0 0 (pos 5) noise (omega arith) refl refl refl) (
      goes one two left (copies 1 0 (omega arith) refl refl)
        (goes two left left (destroys 0 refl) (stays left))))

destroy-IsReleased_example :
    (next : Store) × (destroy calm one 0 ≡ done (put_object next 0 none))
    × IsReleased one 3 0 connection next
destroy-IsReleased_example = destroy-IsReleased calm calm-Closes one 3 0 connection one-IsValid refl

two_assigned : (next : Store) × (assign calm two 1 0 ≡ done next) × IsValid next 3
two_assigned =
    assign-IsValid calm calm-Closes two 3 1 0 connection connection 0 two-IsValid refl refl refl
      (inl (omega arith))

assign_self-undefined_example : assign calm one 0 0 ≡ undefined
unfolding holders
assign_self-undefined_example =
    assign_self-undefined calm calm-Closes one 3 0 connection 0 one-IsValid refl refl refl

abbrev server : ServerSocket
server = record { local_addr = noise; sockfd = pos 3 }

-- A system with no connection to accept.
abbrev refusing : Os
refusing = record {
  answer = λ _. record { ret = negsuc 0; errno = eagain; written = noise };
  logged = λ _. eintr;
  context = λ _. record { now = []; tid = []; file = []; line = pos 0 };
}

refusing-IsDocumented : IsDocumented refusing
refusing-IsDocumented = record { errno = λ calls e q. cc q; short = λ calls. omega arith }

accept-IsAnswered_example :
    IsAnswered empty 3 2 4
      (sys_accept (pos 3) 28)
      (refusing.answer (sys_accept (pos 3) 28 ∷ []))
      (accept refusing server empty 2 4)
accept-IsAnswered_example =
    accept-IsAnswered refusing refusing-IsDocumented empty 3 2 4 empty-IsValid (omega arith) refl
      refl server
