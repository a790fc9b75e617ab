-- ===== src/Samples.antt =====
-- Concrete functions for what is a parameter: the sample platform of the witnesses.
use agent_proxy_rust.Common.{
  ℕ, ◌+◌, ◌-◌, ◌*◌, ◌/◌, refl, String, true, false, ◌&&◌, leb, ltb, min, [], none, some, Table,
  lookup, Option, str_eq, if◌then◌else◌,
}
use agent_proxy_rust.Core.Float.{Float}
use agent_proxy_rust.Core.Http.{StatusClass, IsStatusClass, HeaderMap, Json}
use agent_proxy_rust.Core.Types.{
  openai_chat, unknown, ConnectionContext, channel, ProxyResponse, new_context, put,
  ext_selected_channel,
}

abbrev pub status_class : StatusClass
status_class = record {
  is_server_error = λ s. leb 500 s && ltb s 600;
  is_client_error = λ s. leb 400 s && ltb s 500;
}

pub status_class-IsStatusClass : IsStatusClass status_class
status_class-IsStatusClass = record { server_range = λ s. refl; client_range = λ s. refl }

-- Whole numbers in place of `f64`.
abbrev pub whole : Float ℕ
whole = record {
  of_nat = λ n. n;
  add = λ a b. a + b;
  sub = λ a b. a - b;
  mul = λ a b. a * b;
  div = λ a b. a / b;
  le = leb;
  min = min;
  three_quarters = 1;
}

-- Headers as a table.
abbrev pub table_headers : HeaderMap (Table String)
table_headers = record {
  get = lookup;
  contains_key = λ k h. elim (lookup k h) [ none ↦ false | some v ↦ true ];
  iter = λ h. [];
}

-- A context for the channel of the given name.
abbrev pub context_for : String → ConnectionContext (Unit {0}) (Unit {0})
context_for name =
    put ext_selected_channel
      (channel (record {
        url = "https://up";
        api_key = "k";
        protocol = openai_chat;
        name = name;
        rewrite_path = none;
      }))
      (new_context 0 1 unknown none (some openai_chat))

abbrev pub response_with : ℕ → ProxyResponse (Unit {0}) (Unit {0})
response_with status = record { status = status; headers = tt; body = tt; is_streaming = false }

-- JSON values as far as the samples need them. A body is its value.
mutual
  pub data Value : Type 0 where
    text : String → Value
    whole_number : ℕ → Value
    object : Fields → Value

  pub data Fields : Type 0 where
    end_of_object : Fields
    field : String → Value → Fields → Fields

abbrev pub fetch : String → Fields → Option Value
fetch key end_of_object = none
fetch key (field k v rest) = if str_eq k key then some v else fetch key rest

abbrev pub overwrite : String → String → Fields → Fields
overwrite key t end_of_object = end_of_object
overwrite key t (field k v rest) =
    if str_eq k key then field k (text t) rest else field k v (overwrite key t rest)

abbrev pub fetch_from : String → Value → Option Value
fetch_from key (object fields) = fetch key fields
fetch_from key _ = none

abbrev pub text_of : Value → Option String
text_of (text t) = some t
text_of _ = none

abbrev pub number_of : Value → Option ℕ
number_of (whole_number n) = some n
number_of _ = none

abbrev pub overwrite_in : String → String → Value → Value
overwrite_in key t (object fields) = object (overwrite key t fields)
overwrite_in key t v = v

abbrev pub value_json : Json Value Value
value_json = record {
  from_slice = λ b. some b;
  from_slice_error = λ b. "";
  to_vec = λ v. some v;
  to_vec_error = λ v. "";
  get = fetch_from;
  as_str = text_of;
  as_u64 = number_of;
  as_bool = λ v. none;
  set_str = overwrite_in;
  body_len = λ b. 0;
}
