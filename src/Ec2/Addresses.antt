-- ===== src/Ec2/Addresses.antt =====
-- ec2system/ec2machine.go with bigmachine.go and rpc/client.go: how a request finds an instance. The
-- address of a machine ends in the instance's identifier, which ListenAndServe strips from the
-- paths that it serves (http.StripPrefix).
use mathlib.Core.List.{append_assoc}
use bigmachine.Prelude.{
  ℕ, ◌≡◌, refl, ap, sym, ◌∙◌, true, false, Option, none, some, [], ◌∷◌, ◌++◌, Text, codes,
  if◌then◌else◌, ◌==◌, ==_refl, contains, arith,
}
use bigmachine.Rpc.Paths.{
  slash, trim_right, url, is_empty, trim_right-append, all_plain, ReadsPaths,
}
use bigmachine.Ec2.Launch.{Instance, machine_of, get_address}

-- RpcPrefix.
abbrev pub rpc_prefix : Text
rpc_prefix = codes "/bigrpc/"

-- http.StripPrefix: `none` where it answers 404.
unfoldable pub strip_prefix : Text → Text → Option Text
strip_prefix [] path = some path
strip_prefix (p ∷ ps) [] = none
strip_prefix (p ∷ ps) (c ∷ path) = let rest = strip_prefix ps path in if p == c then rest else none

strip_prefix-append : (p t : Text) → strip_prefix p (p ++ t) ≡ some t
unfolding strip_prefix
strip_prefix-append [] t = refl
strip_prefix-append (c ∷ p) t = ground (arith, strip_prefix-append p t, ==_refl c)

trim_right-slash :
    (c : ℕ) (id : Text)
    → contains (c ∷ id) slash ≡ false
    → trim_right ((c ∷ id) ++ slash ∷ []) ≡ c ∷ id
unfolding trim_right contains
trim_right-slash c [] h = ground arith
trim_right-slash c (d ∷ id) h = ground (arith, trim_right-slash d id)

-- From the path of the URL of a method on a launched instance, the instance strips its identifier and
-- comes to the prefix of the RPC server and the method, if the identifier is not empty and holds no
-- slash, and the parser of URLs gives back the path, of letters, digits and `-./_`, behind the
-- instance's host.
pub url-machine_of :
    (path_of : Text → Text) (vcpu c : ℕ) (id : Text) (i : Instance) (method : Text)
    → ReadsPaths path_of (codes "https://" ++ get_address i)
    → i.id ≡ c ∷ id
    → contains (c ∷ id) slash ≡ false
    → all_plain (i.id ++ (rpc_prefix ++ method)) ≡ true
    → strip_prefix (slash ∷ i.id) (path_of (url (machine_of true vcpu i).addr rpc_prefix method))
      ≡ some (rpc_prefix ++ method)
unfolding url machine_of
url-machine_of path_of vcpu c id i method reads hi hs plain =
    let host = codes "https://" ++ (get_address i ++ slash ∷ []) in
    let trimmed : trim_right (i.id ++ slash ∷ []) ≡ i.id =
      ap (λ t. trim_right (t ++ slash ∷ [])) hi ∙ trim_right-slash c id hs ∙ sym hi in
    let shape : (machine_of true vcpu i).addr ≡ host ++ (i.id ++ slash ∷ []) =
      ap (λ t. codes "https://" ++ t)
        (sym (append_assoc (get_address i) (slash ∷ []) (i.id ++ slash ∷ []))) in
    let front : trim_right (machine_of true vcpu i).addr ≡ host ++ i.id =
      ap trim_right shape
      ∙ trim_right-append host (i.id ++ slash ∷ []) (ap is_empty trimmed ∙ ap is_empty hi)
      ∙ ap (λ t. host ++ t) trimmed in
    let whole : url (machine_of true vcpu i).addr rpc_prefix method
        ≡ (codes "https://" ++ get_address i) ++ (slash ∷ (i.id ++ (rpc_prefix ++ method))) =
      ap (λ t. t ++ (rpc_prefix ++ method)) front
      ∙ append_assoc host i.id (rpc_prefix ++ method)
      ∙ ap (λ t. codes "https://" ++ t)
          (append_assoc (get_address i) (slash ∷ []) (i.id ++ (rpc_prefix ++ method))) in
    ap (λ u. strip_prefix (slash ∷ i.id) (path_of u)) whole
    ∙ ap (strip_prefix (slash ∷ i.id)) (reads _ plain)
    ∙ strip_prefix-append (slash ∷ i.id) (rpc_prefix ++ method)
