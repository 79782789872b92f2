-- ===== src/Examples/Args/Lines.antt =====
-- The command lines that name everything are read back: sdr-udp/examples/sdr_test_sender.cpp and
-- sdr_test_receiver.cpp.
use sdr_rdma_udp.Common.{
  ℕ, ◌+◌, ◌^◌, ◌<◌, ◌≡◌, refl, true, false, some, List, [], ◌∷◌, ◌==◌, arith, u16,
}
use sdr_rdma_udp.Config.{Text}
use sdr_rdma_udp.Config.Numbers.{
  value_from, are_digits, numeral, unsigned_of-numeral, skip_space-numeral, stoul-numeral,
}
use sdr_rdma_udp.Examples.Keys.{mode_flag, sr_word, ec_word}
use sdr_rdma_udp.Examples.Args.{
  Mode, sdr, sr, ec, mode_of, take_mode, int_of, stoi, sender_args, sender_rest, size_and_file,
  parsed, receiver_args, receiver_rest, receiver_file,
}

stoi-numeral :
    (d : ℕ) (ds : List ℕ)
    → are_digits (d ∷ ds) ≡ true
    → value_from 0 (d ∷ ds) < 2 ^ 31
    → stoi (numeral (d ∷ ds)) ≡ some (value_from 0 (d ∷ ds))
unfolding stoi int_of
stoi-numeral d ds h fits =
    let below : d < 10 = ground arith in
    let plus : ((d + 48) == 43) ≡ false = ground arith in
    let minus : ((d + 48) == 45) ≡ false = ground arith in
    rw (skip_space-numeral d ds below, plus, minus, unsigned_of-numeral d ds h (omega arith))
      (ground arith)

-- The word for a mode.
unfoldable pub mode_word : Mode → Text
mode_word sdr = b's' ∷ b'd' ∷ b'r' ∷ []
mode_word sr = sr_word
mode_word ec = ec_word

mode_of-mode_word : (mode : Mode) → mode_of (mode_word mode) ≡ mode
unfolding mode_of mode_word
mode_of-mode_word sdr = refl
mode_of-mode_word sr = refl
mode_of-mode_word ec = refl

-- Decimal digits, at least one, of a number below the bound.
pub record IsNumber (bound : ℕ) : Type 0 where
  pub first : ℕ
  pub others : List ℕ
  pub are_decimal : are_digits (first ∷ others) ≡ true
  pub is_below : value_from 0 (first ∷ others) < bound

abbrev pub text_of : {bound : ℕ} → IsNumber bound → Text
text_of n = numeral (n.first ∷ n.others)

abbrev pub number_of : {bound : ℕ} → IsNumber bound → ℕ
number_of n = value_from 0 (n.first ∷ n.others)

stoi-text_of : (n : IsNumber (2 ^ 16)) → stoi (text_of n) ≡ some (number_of n)
stoi-text_of n = stoi-numeral n.first n.others n.are_decimal (omega (arith, n.is_below))

u16-number_of : (n : IsNumber (2 ^ 16)) → u16 (number_of n) ≡ number_of n
u16-number_of n = omega (arith, n.is_below)

module _ (mode : Mode) (tcp udp : IsNumber (2 ^ 16)) (size : IsNumber (2 ^ 64)) (file : Text) where
  sender_args_lem :
      (ip : Text)
      → sender_args
          (mode_flag ∷ mode_word mode ∷ ip ∷ text_of tcp ∷ text_of udp ∷ text_of size ∷ file ∷ [])
        ≡ parsed (record {
          mode = mode;
          server_ip = ip;
          tcp_port = number_of tcp;
          udp_port = number_of udp;
          has_size = true;
          message_size = number_of size;
          config_file = file;
        })
  unfolding sender_args take_mode sender_rest size_and_file
  sender_args_lem ip =
      let st = stoul-numeral size.first size.others size.are_decimal size.is_below in
      rw
        (
          stoi-text_of tcp,
          stoi-text_of udp,
          st,
          mode_of-mode_word mode,
          u16-number_of tcp,
          u16-number_of udp,
        )
        refl

  receiver_args_lem :
      receiver_args
        (mode_flag ∷ mode_word mode ∷ text_of tcp ∷ text_of udp ∷ text_of size ∷ file ∷ [])
      ≡ parsed (record {
        mode = mode;
        tcp_port = number_of tcp;
        udp_port = number_of udp;
        message_size = number_of size;
        config_file = file;
      })
  unfolding receiver_args take_mode receiver_rest receiver_file
  receiver_args_lem =
      let st = stoul-numeral size.first size.others size.are_decimal size.is_below in
      rw
        (
          stoi-text_of tcp,
          stoi-text_of udp,
          st,
          mode_of-mode_word mode,
          u16-number_of tcp,
          u16-number_of udp,
        )
        refl

  -- For any mode, ports that are decimal digits of numbers below 2^16, a size in decimal digits
  -- below 2^64 and a file: the command line of the sender with an address before the ports, and
  -- that of the receiver, are read back to just these.
  pub args_read_back :
      (ip : Text)
      → (sender_args
            (mode_flag ∷ mode_word mode ∷ ip ∷ text_of tcp ∷ text_of udp ∷ text_of size ∷ file ∷ [])
          ≡ parsed (record {
            mode = mode;
            server_ip = ip;
            tcp_port = number_of tcp;
            udp_port = number_of udp;
            has_size = true;
            message_size = number_of size;
            config_file = file;
          }))
        × (receiver_args
              (mode_flag ∷ mode_word mode ∷ text_of tcp ∷ text_of udp ∷ text_of size ∷ file ∷ [])
            ≡ parsed (record {
              mode = mode;
              tcp_port = number_of tcp;
              udp_port = number_of udp;
              message_size = number_of size;
              config_file = file;
            }))
  args_read_back ip = (sender_args_lem ip, receiver_args_lem)
