-- ===== src/Grpc/Names.antt =====
-- The enums of internal/grpc/mapping.go, there and back.
use chargeflow_registry.Prelude.{ℤ, pos, negsuc, zero, suc, ◌≡◌, refl, true, arith}
use chargeflow_registry.Grpc.Messages.{names_ocpp_version, names_message_type, names_schema_status}
use chargeflow_registry.Grpc.Mapping.{
  ocpp_version_to_domain, ocpp_version_to_proto, message_type_to_domain, message_type_to_proto,
  schema_status_to_domain, schema_status_to_proto,
}

-- Every named value of the three protobuf enums, the unspecified ones included, comes back as
-- itself from the domain.
pub to_proto-to_domain :
    (x : ℤ)
    → (names_ocpp_version x ≡ true → ocpp_version_to_proto (ocpp_version_to_domain x) ≡ x)
      × (names_message_type x ≡ true → message_type_to_proto (message_type_to_domain x) ≡ x)
      × (names_schema_status x ≡ true → schema_status_to_proto (schema_status_to_domain x) ≡ x)
unfolding ocpp_version_to_domain ocpp_version_to_proto message_type_to_domain message_type_to_proto
    schema_status_to_domain schema_status_to_proto
to_proto-to_domain (pos zero) = (λ h. refl, λ h. refl, λ h. refl)
to_proto-to_domain (pos (suc zero)) = (λ h. refl, λ h. refl, λ h. refl)
to_proto-to_domain (pos (suc (suc zero))) = (λ h. refl, λ h. refl, λ h. refl)
to_proto-to_domain (pos (suc (suc (suc zero)))) = (λ h. refl, λ h. absurd (ground arith), λ h. refl)
to_proto-to_domain (pos (suc (suc (suc (suc n))))) =
    (λ h. absurd (ground arith), λ h. absurd (ground arith), λ h. absurd (ground arith))
to_proto-to_domain (negsuc n) = (λ h. absurd cc, λ h. absurd cc, λ h. absurd cc)
