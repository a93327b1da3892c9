-- ===== src/Atls/Ea/Extensions/Cmw.antt =====
-- An attestation that was put in an extension is found there.
use session_bound_agent_iden.Common.{[], ◌∷◌, ◌≡◌, ◌≢◌, some, ok, length, arith}
use session_bound_agent_iden.GoString.{Bytes}
use session_bound_agent_iden.Atls.Ea.Extensions.{
  Extension, cmw_attestation_data_extension, cmw_of_payload, extract_cmw_attestation,
}
use session_bound_agent_iden.Atls.Ea.Wire.Numbers.{read-put_uint16}

pub extract-cmw_data :
    (cmw : Bytes) (e : Extension)
    → cmw_attestation_data_extension cmw ≡ ok e
    → extract_cmw_attestation (e ∷ []) ≡ ok (some cmw)
unfolding cmw_attestation_data_extension extract_cmw_attestation cmw_of_payload
extract-cmw_data cmw e h = ground (arith, read-put_uint16 (length cmw))

pub cmw_data-ne-nil :
    (cmw : Bytes) (e : Extension) → cmw_attestation_data_extension cmw ≡ ok e → cmw ≢ []
unfolding cmw_attestation_data_extension
cmw_data-ne-nil cmw e h n = ground arith
