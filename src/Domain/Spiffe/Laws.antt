-- ===== src/Domain/Spiffe/Laws.antt =====
-- What follows from the laws of the SDK.
use ephemos.Base.{◌≡◌, [], ◌++◌}
use ephemos.GoText.Laws.{not-text_eq_iff}
use ephemos.Domain.Spiffe.{Sdk, SpiffeId, IsSdk, IsDomainName, id_string, scheme}

module _ (sdk : Sdk) (laws : IsSdk sdk) where
  -- The ID of a trust domain is printed in full.
  pub id_string_lem :
      (id : SpiffeId) → IsDomainName sdk id.domain → id_string id ≡ scheme ++ (id.domain ++ id.path)
  unfolding id_string
  id_string_lem id d = rw ((not-text_eq_iff id.domain []).1 (laws.domain_not_empty id.domain d))
