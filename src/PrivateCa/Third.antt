-- ===== src/PrivateCa/Third.antt =====
-- server/private_ca.go: certificates, each by its lines.
use secrets_store_csi_driver.Prelude.{String, List, [], ◌∷◌}

abbrev pub usf_ca : List String
usf_ca =
    "-----BEGIN CERTIFICATE-----"
    ∷ "MIID3jCCAsagAwIBAgIJAKRElw0BM+QQMA0GCSqGSIb3DQEBCwUAMHQxCzAJBgNV"
    ∷ "BAYTAkNOMREwDwYDVQQIDAhaaGVKaWFuZzERMA8GA1UEBwwISGFuZ1pob3UxEDAO"
    ∷ "BgNVBAoMB0FsaWJhYmExDzANBgNVBAsMBkFsaXl1bjEcMBoGA1UEAwwTUHJpdmF0"
    ∷ "ZSBLTVMgUm9vdCBDQTAeFw0yMzAzMDEwODEzMTNaFw00MzAyMjQwODEzMTNaMIGA"
    ∷ "MQswCQYDVQQGEwJDTjERMA8GA1UECAwIWmhlSmlhbmcxETAPBgNVBAcMCEhhbmda"
    ∷ "aG91MRAwDgYDVQQKDAdBbGliYWJhMQ8wDQYDVQQLDAZBbGl5dW4xKDAmBgNVBAMM"
    ∷ "H1ByaXZhdGUgS01TIHVzLWVhc3QtMSBTZWNvbmQgQ0EwggEiMA0GCSqGSIb3DQEB"
    ∷ "AQUAA4IBDwAwggEKAoIBAQDLOhmPZPUMdQpgEseUQtAnVK2jHu7czE1QwewQ+Ex9"
    ∷ "MR09Gfr2pHf2nV1dLJW2KmeDenoc0LZTVhOdtJofOauKZdlF6Ygde9eXAT8b4UYd"
    ∷ "YMPzEHwVPI9V/ppnimkXCPIB1mMfLX5WmeXMii5QnnpI20oAeJR6bEEH2rqDT8Nq"
    ∷ "gAP0MBxb4dmnMtigRB2WMe9i8ALHyZ73TduFnBjPl743uxGVvOUUMWjCQ7k+wBhP"
    ∷ "hRJb3fICTTIj5pVqLYaawUhawvf7U+sCmrvdBicD3l6/wIcjuwfj7AUo/qI1UtjY"
    ∷ "UW8Rs3QI6Qx5bVbKs3PsEIwGwyK/ooZDlrtn3037tdbhAgMBAAGjZjBkMB0GA1Ud"
    ∷ "DgQWBBSTH9bexX7pb9iMlSfc1sOLmy4qZTAfBgNVHSMEGDAWgBQFSs1Eef3eo52D"
    ∷ "P2x5cVEZBoXthDASBgNVHRMBAf8ECDAGAQH/AgEAMA4GA1UdDwEB/wQEAwIBhjAN"
    ∷ "BgkqhkiG9w0BAQsFAAOCAQEATMKMHgLo5E1K4lfk9XwOtDgcgTx/Y7xjwHoPDQuR"
    ∷ "ZeQ7o3ixTZ4Ws8IVbCMiNNYqU19+tYJHm14BIu5kWN+dwO85dOYGK+Wpe7Xm50nj"
    ∷ "mGoYVNNgtQNy3RtTAC2ezzaCZV9VoGnEJlwuMYXmrcnKyiKa+vtWI4MAXfOtON6J"
    ∷ "s47/ORwCJ4HTFDIurb/KKWopymuJkeY9iAIeAxr2b1Sel8hBFYoVBLIg9cc8jMc7"
    ∷ "84REE4fqmLG6q7TH0vn7WVCE3BHkx8UxPIxsUt1cTaRovoi8TlncRx7oqNL24ZhO"
    ∷ "mzpuwbUHoKo76k0XZGBJCbe499IR72rVpVpT1uITvnjV0A==" ∷ "-----END CERTIFICATE-----" ∷ []

abbrev pub usv_ca : List String
usv_ca =
    "-----BEGIN CERTIFICATE-----"
    ∷ "MIID3jCCAsagAwIBAgIJAJ1cYTArWPdJMA0GCSqGSIb3DQEBCwUAMHQxCzAJBgNV"
    ∷ "BAYTAkNOMREwDwYDVQQIDAhaaGVKaWFuZzERMA8GA1UEBwwISGFuZ1pob3UxEDAO"
    ∷ "BgNVBAoMB0FsaWJhYmExDzANBgNVBAsMBkFsaXl1bjEcMBoGA1UEAwwTUHJpdmF0"
    ∷ "ZSBLTVMgUm9vdCBDQTAeFw0yMzAxMDMxMTE1NDVaFw00MjEyMjkxMTE1NDVaMIGA"
    ∷ "MQswCQYDVQQGEwJDTjERMA8GA1UECAwIWmhlSmlhbmcxETAPBgNVBAcMCEhhbmda"
    ∷ "aG91MRAwDgYDVQQKDAdBbGliYWJhMQ8wDQYDVQQLDAZBbGl5dW4xKDAmBgNVBAMM"
    ∷ "H1ByaXZhdGUgS01TIHVzLXdlc3QtMSBTZWNvbmQgQ0EwggEiMA0GCSqGSIb3DQEB"
    ∷ "AQUAA4IBDwAwggEKAoIBAQC5itCQ7NNojKjnbckuSyJ9aIksYeU/qUDvi7zFVEgO"
    ∷ "PknMmjGxBOnCb4/TI3wYDIGwLLNTF44fvmUx5MIE6T4ehk6LC8AJfQvYuhE39X6D"
    ∷ "Sw1Ybtv9sgJZqypZBpPgIO0/It47/tm3DSNlaVFu72maxywJPsIiqTCXYRgUUU+H"
    ∷ "lRScQ0qTO+4Fb67SuszvUtSWnB9iB6YlnHUQ5cqbieeWcYZiUnaqHngDVdySFDYw"
    ∷ "eIcxJi1zwBxOlfq/mxrZyxhwxt/b8Z6H609sEVLZ2oAWjBQH4TNWMHahkREtwttb"
    ∷ "qZWV0lIh/AzOgbOWK3ouzf/KOsXmTiIfUVSRZNRx+wmjAgMBAAGjZjBkMB0GA1Ud"
    ∷ "DgQWBBRa4+jNx1GlIhCKbB2PapcPAuMMUTAfBgNVHSMEGDAWgBQFSs1Eef3eo52D"
    ∷ "P2x5cVEZBoXthDASBgNVHRMBAf8ECDAGAQH/AgEAMA4GA1UdDwEB/wQEAwIBhjAN"
    ∷ "BgkqhkiG9w0BAQsFAAOCAQEAJPhFrAmXBQnJIa5ORgrxkCuc8iU8IirZKZSCZodx"
    ∷ "BFi5Nyr+m6mtJbe1AxoFXkwVhPpLtOvm/rXWWVdDDhalpPPBjhdpVbiTpIQlEitl"
    ∷ "orKEn997Fd0YI54zHslCNBbAbW81YlxPp9cmzkOXejdeoQqmvu/6O+gEFmlLbymT"
    ∷ "S5MJriJ2y5M+k3xZrx6ZlS+ZxdD1dml2rLioFr0dhkuk/EHFd85iRWyeloutACD1"
    ∷ "Z1sSPw5skUr4CO/SPrSGFb609AJdRGVmMDMpcM8YvqfeUPSHCzJCYHEp4Il0DAyn"
    ∷ "Rm+Ka02nh4j+5H+4wYLWuc5sKsSPNTO1FpV3xr08tKHljg==" ∷ "-----END CERTIFICATE-----" ∷ []

abbrev pub id_ca : List String
id_ca =
    "-----BEGIN CERTIFICATE-----"
    ∷ "MIID4zCCAsugAwIBAgIJAOhU6JWRIW3kMA0GCSqGSIb3DQEBCwUAMHQxCzAJBgNV"
    ∷ "BAYTAkNOMREwDwYDVQQIDAhaaGVKaWFuZzERMA8GA1UEBwwISGFuZ1pob3UxEDAO"
    ∷ "BgNVBAoMB0FsaWJhYmExDzANBgNVBAsMBkFsaXl1bjEcMBoGA1UEAwwTUHJpdmF0"
    ∷ "ZSBLTVMgUm9vdCBDQTAeFw0yMzAzMTUwNjU1MjNaFw00MzAzMTAwNjU1MjNaMIGF"
    ∷ "MQswCQYDVQQGEwJDTjERMA8GA1UECAwIWmhlSmlhbmcxETAPBgNVBAcMCEhhbmda"
    ∷ "aG91MRAwDgYDVQQKDAdBbGliYWJhMQ8wDQYDVQQLDAZBbGl5dW4xLTArBgNVBAMM"
    ∷ "JFByaXZhdGUgS01TIGFwLXNvdXRoZWFzdC01IFNlY29uZCBDQTCCASIwDQYJKoZI"
    ∷ "hvcNAQEBBQADggEPADCCAQoCggEBAMLGCl7+MNU2GemCj7l4+f8937kITZdRnnJM"
    ∷ "+TlcBx+TDB24fsy4qV1rPc3PX5t/l+ZGqh2UCUviNZwhkflAVjf/nSOJbgCZh8f1"
    ∷ "BXjsKiYSoGHEKt7SYipZ+Ihagw79L3xgusGq9vEgByvuAqbDQ3m7wPI8JjreEq7M"
    ∷ "xXzPG+YHOMN3+IEj8jHmeIGGBaBHp+hOpc6dknJq4iNSEmFmauO+KTQTvMva6VAd"
    ∷ "c8xenY9pJs8unP2L6hlkEwb1m7oOH81pA9a9cdqUNUjj7+BhCjSkOkWWwche6lUY"
    ∷ "OesO8kB9Mp/n+0s2VmQiFi2fuv9B0N5KxZ7fx6e9LDcvwwqkJ5MCAwEAAaNmMGQw"
    ∷ "HQYDVR0OBBYEFMzjafFC2ZOhKDYFAE76WNDbK5ajMB8GA1UdIwQYMBaAFAVKzUR5"
    ∷ "/d6jnYM/bHlxURkGhe2EMBIGA1UdEwEB/wQIMAYBAf8CAQAwDgYDVR0PAQH/BAQD"
    ∷ "AgGGMA0GCSqGSIb3DQEBCwUAA4IBAQAVq8uSuHNgfAO93mSrLBM8epuYH3VzIZE0"
    ∷ "5GB9TvcafZZx6k6LASfuNO1VMAjltL0qUWPPVc/7InUW5Y1c9JEEFClvPOEnpyZx"
    ∷ "XqNq2vKDqJy1fmPQvLO5wpRHI7s62Gzc1cteWw9SYUBnZqBJXovzGVRJxmaDLwDx"
    ∷ "TofXUYZ7NFvX0VPB4zSO0XyNFFrK3kkVTod/U1mkvwZLOlJW62rDkbGpaAiNhdrQ"
    ∷ "2EuB7et/cVV7k8LR9hMmyOQ+41YvwpTeu3qb6baY2dGg+nnVaKbG2xG8Rku7dyho"
    ∷ "8+PeaIvrSfrcNHeXp8xh/RqqrBZD6oJxwF0adJy/bjS1qtkZsIHQ" ∷ "-----END CERTIFICATE-----" ∷ []

abbrev pub cd_ca : List String
cd_ca =
    "-----BEGIN CERTIFICATE-----"
    ∷ "MIID3zCCAsegAwIBAgIJAMfJ9PSh1DCRMA0GCSqGSIb3DQEBCwUAMHQxCzAJBgNV"
    ∷ "BAYTAkNOMREwDwYDVQQIDAhaaGVKaWFuZzERMA8GA1UEBwwISGFuZ1pob3UxEDAO"
    ∷ "BgNVBAoMB0FsaWJhYmExDzANBgNVBAsMBkFsaXl1bjEcMBoGA1UEAwwTUHJpdmF0"
    ∷ "ZSBLTVMgUm9vdCBDQTAeFw0yMjEyMTkxNDQ0MDdaFw00MjEyMTQxNDQ0MDdaMIGB"
    ∷ "MQswCQYDVQQGEwJDTjERMA8GA1UECAwIWmhlSmlhbmcxETAPBgNVBAcMCEhhbmda"
    ∷ "aG91MRAwDgYDVQQKDAdBbGliYWJhMQ8wDQYDVQQLDAZBbGl5dW4xKTAnBgNVBAMM"
    ∷ "IFByaXZhdGUgS01TIGNuLWNoZW5nZHUgU2Vjb25kIENBMIIBIjANBgkqhkiG9w0B"
    ∷ "AQEFAAOCAQ8AMIIBCgKCAQEA5WAykiJO9SnhZuuWmcxuawlt5hXux9r7kHjiXBny"
    ∷ "KFYhWB4S7/syc1D8ltaJ56Q+NjPEHDyPlE87+IOju7fSN4Yvkwj4MtSF+2Lf4VPf"
    ∷ "TSBdVYba94jESYl8EHwJMTNFp1Yg0+jVqZuL/7USIvC/QPPq8VsBSb/mKQdNejK2"
    ∷ "3bk8MoLK4n0RM3NI21qm0KOwif9cFsBdJ4AsDU9TuNomH9+gF3HWishgkYdT+iIA"
    ∷ "XomIiXTpeMwA4ooj1xAAV+TI9hueo4PH3XCiqTIi8CjjhE+ACT3QLvlgEMkO4r5L"
    ∷ "A36Kmq/I2gPKYPPJm2z8k7S2jWyB/2fYw6mZ12jIQDFfYQIDAQABo2YwZDAdBgNV"
    ∷ "HQ4EFgQUbGwQCD8iaDajh0qJV2ljh4bjw88wHwYDVR0jBBgwFoAUBUrNRHn93qOd"
    ∷ "gz9seXFRGQaF7YQwEgYDVR0TAQH/BAgwBgEB/wIBADAOBgNVHQ8BAf8EBAMCAYYw"
    ∷ "DQYJKoZIhvcNAQELBQADggEBAFnE2Kec1B0j/b7NAT1DujV6ukZE+++rCdVkwOHt"
    ∷ "faIkUow3evGilzP1CWFabieBwQKZ0encA+10QWMMQV1WXNMNPYkCZ3fPfe8kOgeZ"
    ∷ "Gd1lJ3w0XbXT/UPMkBfGuZ5RF+UnG7O+5duqfxDfEeSx9Lsrnwv9EDKF8+Rtk6JD"
    ∷ "Kw/N7bfWxG39mmCUDHXIzDmrZeP/G50BaoudE3REYOY9KmiH52m7Aitx+u1PCw3h"
    ∷ "qlOCFAlVxZlTiUFFL8A4670zymmxiP0kdM8i8fLyZnqfKGMGYbrANTUVqPmRk+fx"
    ∷ "eSZGuwQDWWBcBQnCraDj+q7S5IWZkwQZlmplNPN8zHMLSCg=" ∷ "-----END CERTIFICATE-----" ∷ []

abbrev pub gb_ca : List String
gb_ca =
    "-----BEGIN CERTIFICATE-----"
    ∷ "MIID3jCCAsagAwIBAgIJAJ4Z26VpjVEMMA0GCSqGSIb3DQEBCwUAMHQxCzAJBgNV"
    ∷ "BAYTAkNOMREwDwYDVQQIDAhaaGVKaWFuZzERMA8GA1UEBwwISGFuZ1pob3UxEDAO"
    ∷ "BgNVBAoMB0FsaWJhYmExDzANBgNVBAsMBkFsaXl1bjEcMBoGA1UEAwwTUHJpdmF0"
    ∷ "ZSBLTVMgUm9vdCBDQTAeFw0yMzAxMDMwNjExMDdaFw00MjEyMjkwNjExMDdaMIGA"
    ∷ "MQswCQYDVQQGEwJDTjERMA8GA1UECAwIWmhlSmlhbmcxETAPBgNVBAcMCEhhbmda"
    ∷ "aG91MRAwDgYDVQQKDAdBbGliYWJhMQ8wDQYDVQQLDAZBbGl5dW4xKDAmBgNVBAMM"
    ∷ "H1ByaXZhdGUgS01TIGV1LXdlc3QtMSBTZWNvbmQgQ0EwggEiMA0GCSqGSIb3DQEB"
    ∷ "AQUAA4IBDwAwggEKAoIBAQCtijKBod0g7jyfQJ1K0FGTVxWVOj1VqFv9q9GiPlGG"
    ∷ "bIUDFs+iiYNq+F0kc/TSM4HI/CU6kXr+L4RK0v1mBQqmbYWmLQ3btjpleulSDUgW"
    ∷ "WyMUXH5UMwRls6WSX/795avVB5noA8D+7qRg1oOlJAD+ZQaN1t0qjS+f41Iti8uU"
    ∷ "8L1ewihauCH03lSkvGSsRMOc5Jl+F4SFs6dvoU+T8j1G0oMA4MP5mE7AUuZBfhMK"
    ∷ "vmNYcSPxhQI82gSKQZMhROhvUbEiMbe+osn4hIeBtfRQ3O+jlHj7B5XW1AsIZi1k"
    ∷ "S8lj9GfmIkBi9viKOj7iWKwghTTY9P+79f19Cml5e3XbAgMBAAGjZjBkMB0GA1Ud"
    ∷ "DgQWBBSo2DCQBfzreXWwyj38B6j/orggSDAfBgNVHSMEGDAWgBQFSs1Eef3eo52D"
    ∷ "P2x5cVEZBoXthDASBgNVHRMBAf8ECDAGAQH/AgEAMA4GA1UdDwEB/wQEAwIBhjAN"
    ∷ "BgkqhkiG9w0BAQsFAAOCAQEAIBUAPxkGFzh4qBR5tCRqLvoptr2GNH6XRgDVyDKB"
    ∷ "bMX/GKIvi/CR/2KehuxkFO8gyMMRF/ZQUXFp/Or0YwPMaJO9C6OgQcdj3kAuITwq"
    ∷ "u6zU8ICZK5tBp3kM8LAY7AJJAI615PjHe5Z9/+EjDmRsvMNQrVg2yA9rJRirtFZP"
    ∷ "F9jS/ahbBmRxwFdckXQIErwnfL+BwU82tlq9mCd4ir1WnfTzh/WTAlRkGMQGz16k"
    ∷ "um+O2DrEfqs3RqaY+nTvKTamLZ3Kkvk0lFdp35TaxeYZ0UqTDnEOCIlCGHwVtVHC"
    ∷ "Go/k2t14MBN1U0qQzqmDpIy57f+/URKgZhQ+KumrT5TVAQ==" ∷ "-----END CERTIFICATE-----" ∷ []

abbrev pub hy_ca : List String
hy_ca =
    "-----BEGIN CERTIFICATE-----"
    ∷ "MIID3jCCAsagAwIBAgIJANo1E2InQHt3MA0GCSqGSIb3DQEBCwUAMHQxCzAJBgNV"
    ∷ "BAYTAkNOMREwDwYDVQQIDAhaaGVKaWFuZzERMA8GA1UEBwwISGFuZ1pob3UxEDAO"
    ∷ "BgNVBAoMB0FsaWJhYmExDzANBgNVBAsMBkFsaXl1bjEcMBoGA1UEAwwTUHJpdmF0"
    ∷ "ZSBLTVMgUm9vdCBDQTAeFw0yMjEyMTUwNzM4MDBaFw00MjEyMTAwNzM4MDBaMIGA"
    ∷ "MQswCQYDVQQGEwJDTjERMA8GA1UECAwIWmhlSmlhbmcxETAPBgNVBAcMCEhhbmda"
    ∷ "aG91MRAwDgYDVQQKDAdBbGliYWJhMQ8wDQYDVQQLDAZBbGl5dW4xKDAmBgNVBAMM"
    ∷ "H1ByaXZhdGUgS01TIGNuLWhleXVhbiBTZWNvbmQgQ0EwggEiMA0GCSqGSIb3DQEB"
    ∷ "AQUAA4IBDwAwggEKAoIBAQCbhoCuL7c7P2ykiu/NlFQ/9ejMqsTRmfOxPotZfm2b"
    ∷ "NSEzIitIQ0lJolH5j5shvria3qVuAWHNV0e9sFjAp4Zk9kNhOM6QiAwynld5id3w"
    ∷ "rleWhUtkHu1A8Jkhoc9RgO64ALJEiGI3Hrv8aq5Nu0W9xaIChKvONvK03DaGnDtw"
    ∷ "Q3BjglEx35rTH+6MspdG6Rk0xhPM1W7dAYw/trZDfeG5uCXlbc755UDVk2Kh/jaD"
    ∷ "1+UcXDDX089Zz1qzyOrHCBwWUK5LVjWD1slf1Fyhdd+Rl6kTsJwpp6M9cXHULUU4"
    ∷ "b2LxDduIHO+w3JJyn6Fj+36ClkDw9/MspqxxjfqTQ3dHAgMBAAGjZjBkMB0GA1Ud"
    ∷ "DgQWBBR+Awr2ARs9+wB4VY2vqGwpeH1zfjAfBgNVHSMEGDAWgBQFSs1Eef3eo52D"
    ∷ "P2x5cVEZBoXthDASBgNVHRMBAf8ECDAGAQH/AgEAMA4GA1UdDwEB/wQEAwIBhjAN"
    ∷ "BgkqhkiG9w0BAQsFAAOCAQEAlTyaApORidCQxhxrMG6HCqsLTy3xYyFFEYRbixeY"
    ∷ "aSm1SJc0bKGugMvGNR5rmR0wJdgsQIUgfi56P/QoopMgZ5NAit3I6iMQ1BxZ4ZuC"
    ∷ "ftU4KClnFeLgIxmhpQ7+TfwTrG9q1MJJ9HGgStzcgemeISg0Q0Dq4DIzoCioVijU"
    ∷ "V6slbvRsyjrXjSbnPbQC41wNO8nV8jYl/vIwj+onxUoJuvjL1Nqn6vX53WpQH0Bq"
    ∷ "1B6PgVGj6dqHKpdMfYhglzEeNMgSc9A8am1NSGvhJ+EzBWhoNI6bwEUzBOoFDN9q"
    ∷ "bdBE3ActxrGP9MaYCs6cJPNwsk7E/ijZTYhqd06dghycMw==" ∷ "-----END CERTIFICATE-----" ∷ []

abbrev pub wlcb_ca : List String
wlcb_ca =
    "-----BEGIN CERTIFICATE-----"
    ∷ "MIID4jCCAsqgAwIBAgIJALlJAIErjo2JMA0GCSqGSIb3DQEBCwUAMHQxCzAJBgNV"
    ∷ "BAYTAkNOMREwDwYDVQQIDAhaaGVKaWFuZzERMA8GA1UEBwwISGFuZ1pob3UxEDAO"
    ∷ "BgNVBAoMB0FsaWJhYmExDzANBgNVBAsMBkFsaXl1bjEcMBoGA1UEAwwTUHJpdmF0"
    ∷ "ZSBLTVMgUm9vdCBDQTAeFw0yMjEyMTkwOTAwNDhaFw00MjEyMTQwOTAwNDhaMIGE"
    ∷ "MQswCQYDVQQGEwJDTjERMA8GA1UECAwIWmhlSmlhbmcxETAPBgNVBAcMCEhhbmda"
    ∷ "aG91MRAwDgYDVQQKDAdBbGliYWJhMQ8wDQYDVQQLDAZBbGl5dW4xLDAqBgNVBAMM"
    ∷ "I1ByaXZhdGUgS01TIGNuLXd1bGFuY2hhYnUgU2Vjb25kIENBMIIBIjANBgkqhkiG"
    ∷ "9w0BAQEFAAOCAQ8AMIIBCgKCAQEAs0ih9F+2Lq23WFAvgZWdyXToSPuYe58TfyPe"
    ∷ "4iG0bhun0JjMRKWdpMHLuIosQyisY2ANf2P4U1Nih+zQ/I16jyKEyb1A8kgNPWRV"
    ∷ "oGiWLTDZ2CDtp7vIHd+grhjJhPm0s4wjO6JZT3tfXOYTyxFOD/YxjUnR7EpzHpla"
    ∷ "+mM6bC4ktq6qCc/zYQ56b4zYYhZO3jY6DtRtDCkxIacmnVQAj0hkOgU8OFUn0Ar/"
    ∷ "jeJW+H+XsaUQY4Ex0UHRrpzDsw724sni2GIbKAfZ3WB2LzEaSmr0H4tgawtEVUfj"
    ∷ "2uPFwQNFjOj+wY2aS7bOJlXPqmFjL3Ug/LidH7cTy0PZxsjx7QIDAQABo2YwZDAd"
    ∷ "BgNVHQ4EFgQU3iDnyrEPO+4ASAcMXAXZqXZvIPswHwYDVR0jBBgwFoAUBUrNRHn9"
    ∷ "3qOdgz9seXFRGQaF7YQwEgYDVR0TAQH/BAgwBgEB/wIBADAOBgNVHQ8BAf8EBAMC"
    ∷ "AYYwDQYJKoZIhvcNAQELBQADggEBAIG+VMc1R9ioNG1cqA94WXJj2UPAPtuMD9FQ"
    ∷ "UE60see9Na5r9M87yce6YJ0UBpJZGG03QuIAmI1ogLblaiw8aazPouZZqmxlWt1/"
    ∷ "nbgt1XiCaylMKJSWwvO++O/Sz+o8rf/P9eWj77YtAlzSVxNjpolYhzANYMYuA8Cx"
    ∷ "VGH8hctEE52rL9VAUCDA3bCp2P/tKtwl1LaWMriNvmbT7wD0yuc8DuPSPUX0Sn5o"
    ∷ "7LsyUhtSQcDuYG4DliWR42N2LAkTFDlEjilKZuI4QbDTWb9wMXMt03m4cHHoo+b1"
    ∷ "LQeRq8Klk+3vXPPGoAwLYqN5bJKSZVoN7yJ3jU0Q3Nh3pIbmtpo=" ∷ "-----END CERTIFICATE-----" ∷ []
