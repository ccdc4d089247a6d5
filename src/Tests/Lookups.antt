-- ===== src/Tests/Lookups.antt =====
-- Runs of whole lookups, and a start on the default callbacks.
use libmobile.Adapter.{Adapter, BufferDns, Callback, addrtype_ipv4, no_addr}
use libmobile.Dns.Answer.{Answers}
use libmobile.Dns.Labels.{AreLabels, join}
use libmobile.Prelude.{
  Bool, Bytes, List, [], ap, arith, copy, drop, get_or, get_or-copy_before, get_or-set_other,
  length, ltb, pos, refl, replicate, set, some, suc, take, true, ℕ, ◌&&◌, ◌+◌, ◌∙◌, ◌∷◌, ◌≡◌, ◌≤◌,
}
use libmobile.Dns.Wrapped.{Fails, ReceivesBytes, polls, polls-request_send}
use libmobile.Util.{addr_compare}
use libmobile.Callback.Default.{callback_init}
use libmobile.Callback.{
  cb_config_read, cb_config_write, cb_serial_enable, cb_sock_send, cb_time_latch,
}
use libmobile.Config.Settings.{
  config_init, config_load, internal_clear, internal_verify, load_library,
}
use libmobile.Dns.Name.{dns_packet_size, make_labels, make_name, name_compare, same_name}
use libmobile.Config.Library.{library_load, library_valid}
use libmobile.Tests.Samples.{listening_adapter, program, with_user}
use libmobile.Dns.Query.{make_query, qtype_a}
use libmobile.Mobile.Loop.{mobile_init, mobile_start}
use libmobile.Dns.Echo.{name_compare-make_name}
use libmobile.Dns.Request.{request_recv, request_send}
use libmobile.Dns.Resolved.{request_recv-Answers}

-- What is behind the bytes that are copied is left.
get_or-copy_after :
    (xs : List ℕ) (i : ℕ) (src : List ℕ) (j : ℕ)
    → i + length src ≤ j
    → get_or (copy xs i src) j 0 ≡ get_or xs j 0
get_or-copy_after xs i [] j h = refl
get_or-copy_after xs i (y ∷ src) j h =
    get_or-copy_after (set xs i y) (suc i) src j (omega arith)
    ∙ get_or-set_other xs i j y (λ e. absurd (omega arith))

abbrev all_bytes : List ℕ → Bool
all_bytes [] = true
all_bytes (x ∷ xs) = ltb x 256 && all_bytes xs

all_Bytes : (xs : List ℕ) → all_bytes xs ≡ true → Bytes xs
all_Bytes [] h = tt
all_Bytes (x ∷ xs) h = (ground arith, all_Bytes xs (ground arith))

-- The name `ab.c`
abbrev labels : List (List ℕ)
labels = (b'a' ∷ b'b' ∷ []) ∷ (b'c' ∷ []) ∷ []

labels-AreLabels : AreLabels labels
labels-AreLabels = ground arith

abbrev blank : BufferDns
blank = record { id = 0; type = 0; size = 0; bytes = replicate 512 0 }

-- The query with the id 258
abbrev query : BufferDns
query = record {
  id = 258;
  type = qtype_a;
  size = 22;
  bytes =
      1
      ∷ 2
      ∷ 1
      ∷ 0
      ∷ 0
      ∷ 1
      ∷ 0
      ∷ 0
      ∷ 0
      ∷ 0
      ∷ 0
      ∷ 0
      ∷ 2
      ∷ b'a'
      ∷ b'b'
      ∷ 1
      ∷ b'c'
      ∷ 0
      ∷ 0
      ∷ 1
      ∷ 0
      ∷ 1
      ∷ replicate 490 0;
}

query_made : make_query blank 258 qtype_a (join labels) ≡ some query
unfolding make_query make_name make_labels
query_made = refl

abbrev flags_and_counts : List ℕ
flags_and_counts = 0x81 ∷ 0x80 ∷ 0 ∷ 1 ∷ 0 ∷ 1 ∷ []

abbrev address_record : List ℕ
address_record = 0xc0 ∷ 12 ∷ 0 ∷ 1 ∷ 0 ∷ 1 ∷ 0 ∷ 0 ∷ 0 ∷ 60 ∷ 0 ∷ 4 ∷ 10 ∷ 0 ∷ 0 ∷ 1 ∷ []

abbrev response : List ℕ
response = copy (copy query.bytes 2 flags_and_counts) 22 address_record

-- A program whose name server answers the query
abbrev answering : Callback Unit
answering = record program {
  sock_recv = λ w conn size. (
    record {
      count = pos 38;
      bytes = take 38 response;
      from = record no_addr { type = addrtype_ipv4; port = 53 };
    },
    w,
  );
}

abbrev asking_adapter : Adapter Unit
asking_adapter = record (with_user tt listening_adapter) { buffer_dns = query }

abbrev received_response : BufferDns
received_response = record query {
  bytes = copy query.bytes 0 (take dns_packet_size (take 38 response));
  size = 38;
}

response-Answers : Answers query received_response
response-Answers = record {
  id = refl;
  type = refl;
  repeats_id = refl;
  flags = refl;
  questions = refl;
  answers = omega arith;
  repeats = λ j h k.
      ap (λ (l : List ℕ). get_or l j 0) (the_response)
      ∙ get_or-copy_before (copy query.bytes 2 flags_and_counts) 22 address_record j k
      ∙ get_or-copy_after query.bytes 2 flags_and_counts j (omega arith);
  pointer = refl;
  pointer_low = refl;
  answer_type = refl;
  answer_class = refl;
  answer_length = refl;
  fits = omega arith;
}
  where
    the_response : received_response.bytes ≡ response
    the_response = refl

request_recv-Answers_example :
    request_recv answering 4 asking_adapter 0
      (record no_addr { type = addrtype_ipv4; port = 53 })
      (join labels)
      4
    ≡ some (
      pos 1,
      take 4 (drop 34 received_response.bytes),
      record asking_adapter { buffer_dns = received_response },
    )
unfolding addr_compare
request_recv-Answers_example =
    request_recv-Answers answering 3 asking_adapter blank 258 0
      (record no_addr { type = addrtype_ipv4; port = 53 }) (b'a' ∷ b'b' ∷ []) ((b'c' ∷ []) ∷ []) 38
      labels-AreLabels refl query_made refl refl response-Answers (omega arith)

query_named : make_name query.bytes 12 (join labels) ≡ some (query.bytes, 18)
unfolding make_name make_labels
query_named = refl

name_compare-make_name_example : name_compare 3 query.bytes 22 (join labels) 4 12 ≡ same_name 18
name_compare-make_name_example =
    name_compare-make_name 3 query.bytes 12 (b'a' ∷ b'b' ∷ []) ((b'c' ∷ []) ∷ []) query.bytes 18 22
      labels-AreLabels refl query_named (omega arith) (omega arith)

-- An adapter that has sent 65535 queries
abbrev tired_adapter : Adapter Unit
tired_adapter = record (with_user tt listening_adapter) { dns_id = 65535; buffer_dns = blank }

tired_query_goes_out : (request_send answering tired_adapter 0 no_addr (join labels)).0 ≡ true
unfolding request_send make_query make_name make_labels cb_sock_send
tired_query_goes_out = refl

tired_query-Bytes :
    Bytes (request_send answering tired_adapter 0 no_addr (join labels)).1.buffer_dns.bytes
unfolding request_send make_query make_name make_labels cb_sock_send
tired_query-Bytes =
    all_Bytes (request_send answering tired_adapter 0 no_addr (join labels)).1.buffer_dns.bytes refl

answering-ReceivesBytes : ReceivesBytes answering
answering-ReceivesBytes w conn size = all_Bytes (take 38 response) refl

polls-request_send_example : Fails (
    polls answering 9 0 no_addr
      (join labels)
      4
      ((λ w. w) ∷ (λ w. w) ∷ [])
      (request_send answering tired_adapter 0 no_addr (join labels)).1)
polls-request_send_example =
    polls-request_send answering 9 tired_adapter 0 no_addr (join labels) 4
      ((λ w. w) ∷ (λ w. w) ∷ []) (omega arith) (omega arith) tired_query_goes_out tired_query-Bytes
      answering-ReceivesBytes

-- Started on the default callbacks, an adapter finds a blank storage.
default_start : mobile_start callback_init (mobile_init tired_adapter) ≡ (
    let b = mobile_init tired_adapter in
    record b {
      global = record b.global { start = true };
      config = record (config_init tired_adapter.config) { loaded = true };
    })
unfolding mobile_start config_load callback_init mobile_init config_init cb_serial_enable
    internal_verify internal_clear load_library library_load library_valid cb_time_latch
    cb_config_read cb_config_write
default_start = refl
