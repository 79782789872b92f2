-- ===== src/Examples/Args.antt =====
-- The command lines of sdr-udp/examples/sdr_test_sender.cpp and sdr_test_receiver.cpp. The arguments are those
-- after the program's name.
pub mod Lines
use sdr_rdma_udp.Common.{
  ℕ, ◌+◌, ◌-◌, ◌*◌, ◌^◌, Bool, true, false, Option, none, some, List, [], ◌∷◌, ltb, leb, ◌==◌,
  if◌then◌else◌, ◌>>=◌, u16, u32,
}
use sdr_rdma_udp.Config.{Text, eq_text, skip_space, unsigned_of, stoul}
use sdr_rdma_udp.Examples.Keys.{mode_flag, sr_word, ec_word}

pub data Mode : Type 0 where
  sdr sr ec : Mode

unfoldable pub mode_of : Text → Mode
mode_of m = if eq_text m sr_word then sr else if eq_text m ec_word then ec else sdr

-- The mode and the arguments that are left; `none` is the usage message.
unfoldable pub take_mode : List Text → Option (Mode × List Text)
unfolding mode_of
take_mode [] = some (sdr, [])
take_mode (a ∷ []) = if eq_text a mode_flag then none else some (sdr, a ∷ [])
take_mode (a ∷ m ∷ rest) =
    if eq_text a mode_flag then some (mode_of m, rest) else some (sdr, a ∷ m ∷ rest)

-- A number and its sign, as 32 bits; `none` is an exception.
unfoldable pub int_of : Text → Option ℕ
unfolding unsigned_of
int_of [] = none
int_of (c ∷ cs) =
    let plain = unsigned_of (c ∷ cs) >>= λ n. if ltb n (2 ^ 31) then some n else none in
    let plus = unsigned_of cs >>= λ n. if ltb n (2 ^ 31) then some n else none in
    let minus = unsigned_of cs >>= λ n. if leb n (2 ^ 31) then some (u32 (2 ^ 32 - n)) else none in
    if c == 43 then plus else if c == 45 then minus else plain

-- `std::stoi`
unfoldable pub stoi : Text → Option ℕ
unfolding int_of skip_space
stoi value = int_of (skip_space value)

-- What `main` makes of its arguments: the usage message and 1, an exception that is not caught, or
-- what it runs with.
pub data Parsed {ℓ} (A : Type ℓ) : Type ℓ where
  usage aborted : Parsed A
  parsed : A → Parsed A

abbrev pub or_abort {ℓ} : {A : Type ℓ} → Option A → Parsed A
or_abort none = aborted
or_abort (some a) = parsed a

abbrev pub default_size : ℕ
default_size = 1024 * 1024

-- The sender's arguments. `has_size` is `argc - argi >= 4`.
pub record SenderArgs : Type 0 where
  pub mode : Mode
  pub server_ip : Text
  pub tcp_port : ℕ
  pub udp_port : ℕ
  pub has_size : Bool
  pub message_size : ℕ
  pub config_file : Text

-- The size and the file among the arguments after the ports; the file counts only after a size.
unfoldable pub size_and_file : List Text → Option (Bool × ℕ × Text)
unfolding stoul
size_and_file [] = some (false, default_size, [])
size_and_file (size ∷ []) = stoul size >>= λ n. some (true, n, [])
size_and_file (size ∷ file ∷ rest) = stoul size >>= λ n. some (true, n, file)

unfoldable pub sender_rest : Mode → List Text → Parsed SenderArgs
unfolding stoi size_and_file
sender_rest mode (ip ∷ tcp ∷ udp ∷ rest) = or_abort (
    stoi tcp >>= λ tcp_port. stoi udp >>= λ udp_port. size_and_file rest >>= λ z. some (record {
      mode = mode;
      server_ip = ip;
      tcp_port = u16 tcp_port;
      udp_port = u16 udp_port;
      has_size = z.0;
      message_size = z.1;
      config_file = z.2;
    }))
sender_rest mode _ = usage

unfoldable pub sender_args : List Text → Parsed SenderArgs
unfolding take_mode sender_rest
sender_args argv = elim (take_mode argv) [ none ↦ usage | some r ↦ sender_rest r.0 r.1 ]

pub record ReceiverArgs : Type 0 where
  pub mode : Mode
  pub tcp_port : ℕ
  pub udp_port : ℕ
  pub message_size : ℕ
  pub config_file : Text

unfoldable pub receiver_file : List Text → Text → Option (ℕ × Text)
unfolding stoul
receiver_file [] file = some (default_size, file)
receiver_file (file ∷ rest) size = stoul size >>= λ n. some (n, file)

unfoldable pub receiver_rest : Mode → List Text → Parsed ReceiverArgs
unfolding stoi receiver_file
receiver_rest mode (tcp ∷ udp ∷ third ∷ rest) = or_abort (
    stoi tcp >>= λ tcp_port. stoi udp >>= λ udp_port. receiver_file rest third >>= λ z.
    some (record {
      mode = mode;
      tcp_port = u16 tcp_port;
      udp_port = u16 udp_port;
      message_size = z.0;
      config_file = z.1;
    }))
receiver_rest mode _ = usage

unfoldable pub receiver_args : List Text → Parsed ReceiverArgs
unfolding take_mode receiver_rest
receiver_args argv = elim (take_mode argv) [ none ↦ usage | some r ↦ receiver_rest r.0 r.1 ]
