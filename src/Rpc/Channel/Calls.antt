-- ===== src/Rpc/Channel/Calls.antt =====
-- A call from the client's request to its completion.
use libcold.Base.{
  ℕ, ◌+◌, ◌≤◌, ◌<◌, ◌≡◌, refl, ap, ◌∙◌, List, [], ◌∷◌, Bool, true, none, some, arith,
}
use libcold.Base.StdMap.{StdMap, find}
use libcold.Rpc.Channel.{
  RpcMessage, empty_message, Method, Service, calls, do_server_rpc, send_response, OutstandingCall,
  Client, find_call, erase_call, emplace, call_method, do_client_rpc, serve, complete,
}

-- The ids of waiting calls fall along the list and are below the bound.
abbrev pub IsBelow : ℕ → List OutstandingCall → Type 0
IsBelow n [] = Unit {0}
IsBelow n (c ∷ cs) = (c.call_id < n) × IsBelow c.call_id cs

abbrev pub IsValid : Client → Type 0
IsValid c = IsBelow (c.last_id + 1) c.outstandings

find_call-above :
    (n i : ℕ) (cs : List OutstandingCall) → IsBelow n cs → n ≤ i → find_call i cs ≡ none
unfolding find_call
find_call-above n i [] b h = refl
find_call-above n i (c ∷ cs) b h = ground (arith, find_call-above c.call_id i cs b.1)

IsBelow-mono : (m n : ℕ) (cs : List OutstandingCall) → m ≤ n → IsBelow m cs → IsBelow n cs
IsBelow-mono m n [] h b = tt
IsBelow-mono m n (c ∷ cs) h b = (omega arith, b.1)

erase_call-IsBelow :
    (i n : ℕ) (cs : List OutstandingCall) → IsBelow n cs → IsBelow n (erase_call i cs)
unfolding erase_call
erase_call-IsBelow i n [] b = tt
erase_call-IsBelow i n (c ∷ cs) b =
    ground (arith, erase_call-IsBelow i c.call_id cs b.1, IsBelow-mono c.call_id n cs)

find_call-erase_call :
    (i n : ℕ) (cs : List OutstandingCall) → IsBelow n cs → find_call i (erase_call i cs) ≡ none
unfolding find_call erase_call
find_call-erase_call i n [] b = refl
find_call-erase_call i n (c ∷ cs) b =
    ground (arith, find_call-above c.call_id i cs b.1, find_call-erase_call i c.call_id cs b.1)

module _ (parse : List ℕ → RpcMessage × Bool) where
  pub do_client_rpc-IsValid :
      (c : Client) (bytes : List ℕ) → IsValid c → IsValid (do_client_rpc parse c bytes).0
  unfolding do_client_rpc
  do_client_rpc-IsValid c bytes v =
      ground (arith, erase_call-IsBelow (parse bytes).0.id (c.last_id + 1) c.outstandings v)

module _ (parse : List ℕ → RpcMessage × Bool) (serialize : RpcMessage → List ℕ)
    (parse-serialize : (m : RpcMessage) → parse (serialize m) ≡ (m, true)) where
  -- A call of a method that the server has, with a request that parses and a response that
  -- serialises, runs that method on that request, and the response completes that call and no
  -- other: all calls that waited before still wait.
  pub call_round_trip :
      (c : Client) (services : StdMap Service) (s : Service) (f : Method)
      (service method request data' : List ℕ) (target : ℕ)
      → IsValid c
      → find service services ≡ some s
      → find method s.methods ≡ some f
      → f.parses request ≡ true
      → f.reply request ≡ some data'
      → let (c', m) = call_method c service method request target in
        let reply : RpcMessage = record empty_message { id = m.id; payload = data' } in
        (do_server_rpc parse services (serialize m) ≡ calls f request m.id)
        × (send_response true (f.reply request) m.id ≡ some reply)
        × (do_client_rpc parse c' (serialize reply)
            ≡ (record { last_id = m.id; outstandings = c.outstandings }, some (target, data')))
  unfolding call_method do_server_rpc send_response do_client_rpc emplace find_call erase_call
  call_round_trip c services s f service method request data' target v es em ep er =
      let fresh = find_call-above (c.last_id + 1) (c.last_id + 1) c.outstandings v (omega arith) in
      let (c', m) = call_method c service method request target in
      (
        ap (serve services) (parse-serialize m) ∙ ground arith,
        ground arith,
        ap (complete c') (parse-serialize (record empty_message { id = m.id; payload = data' }))
            ∙ ground (arith, fresh),
      )
