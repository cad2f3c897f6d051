-- ===== src/PrivateCa/Second.antt =====
-- server/private_ca.go: certificates, each by its lines.
use secrets_store_csi_driver.Prelude.{String, List, [], ◌∷◌}

abbrev pub shf_ca : List String
shf_ca =
    "-----BEGIN CERTIFICATE-----"
    ∷ "MIID6jCCAtKgAwIBAgIJAPMRW8Xfgju0MA0GCSqGSIb3DQEBCwUAMHQxCzAJBgNV"
    ∷ "BAYTAkNOMREwDwYDVQQIDAhaaGVKaWFuZzERMA8GA1UEBwwISGFuZ1pob3UxEDAO"
    ∷ "BgNVBAoMB0FsaWJhYmExDzANBgNVBAsMBkFsaXl1bjEcMBoGA1UEAwwTUHJpdmF0"
    ∷ "ZSBLTVMgUm9vdCBDQTAeFw0yNDA2MjQwODM5MDdaFw00NDA2MTkwODM5MDdaMIGM"
    ∷ "MQswCQYDVQQGEwJDTjERMA8GA1UECAwIWmhlSmlhbmcxETAPBgNVBAcMCEhhbmda"
    ∷ "aG91MRAwDgYDVQQKDAdBbGliYWJhMQ8wDQYDVQQLDAZBbGl5dW4xNDAyBgNVBAMM"
    ∷ "K1ByaXZhdGUgS01TIGNuLXNoYW5naGFpLWZpbmFuY2UtMSBTZWNvbmQgQ0EwggEi"
    ∷ "MA0GCSqGSIb3DQEBAQUAA4IBDwAwggEKAoIBAQC0i+nOL3lIbI7sALjUmVMJ4ErP"
    ∷ "oXCQO+vltYwxbt6S3raCWrYGCYltB1HkKYP14DqxAxJ2g7R1SNsuHYFVjRBJafmO"
    ∷ "Wbrx0x8o+/HNHQ02sTpc9DTM22Dnd/r5H0DsTTrDuZwzqBVcI44LqSrMMMQf1AsD"
    ∷ "msmsffvdu3kuESMgPb7wNedMRhFZkI/eY5I5/VWiH7sT+YVdlq5EDfQG+u9tcRtB"
    ∷ "c38VpJJhaWjrA2W4cblAlzoIqj+IG/VOI/o0tJVV1VY51fusp+wKQat5dhzs920R"
    ∷ "i8eBgnQ9FatZqk/tuwbErU/x/JaV98JSniJyXIFYRI0msdbJJGc75Wl3je5JAgMB"
    ∷ "AAGjZjBkMB0GA1UdDgQWBBS6XAbTPnqHZKoc2n9BCgnZZLFBZzAfBgNVHSMEGDAW"
    ∷ "gBQFSs1Eef3eo52DP2x5cVEZBoXthDASBgNVHRMBAf8ECDAGAQH/AgEAMA4GA1Ud"
    ∷ "DwEB/wQEAwIBhjANBgkqhkiG9w0BAQsFAAOCAQEAp1EvUYY05YP55DmxZSn8Spuj"
    ∷ "57a+qEV+pm0Go2pNi0I3jq9sB8oGj+nW1A32D26kPMOnR8cSfD/+vQIcNBl+HzSR"
    ∷ "zxY6kcHy4q/3CG0sZVd/q8EVlih9LerIEODpRUU0O2EKtmAr49N9avOJ3XNk+zS2"
    ∷ "o322x8Ccc5UWfMLn8ftB4FX0X5fph/pOBW/PHyxWijX5eEtFMBj+MrB5QXJFhw8w"
    ∷ "362zOFiVxZ1B9RJVCcMEpaBfg0wU+rzIw+bm6XhACZq+g2cNAsE1n7K56VWFpPYo"
    ∷ "Df3ZKekj7Tw1vPLcOVRAJVqhSeIWIVhw4P45gPzLlTxAkSIofkdhIvVQRpzjkQ=="
    ∷ "-----END CERTIFICATE-----" ∷ []

abbrev pub de_ca : List String
de_ca =
    "-----BEGIN CERTIFICATE-----"
    ∷ "MIID4TCCAsmgAwIBAgIJAM5z+GQ6YhbZMA0GCSqGSIb3DQEBCwUAMHQxCzAJBgNV"
    ∷ "BAYTAkNOMREwDwYDVQQIDAhaaGVKaWFuZzERMA8GA1UEBwwISGFuZ1pob3UxEDAO"
    ∷ "BgNVBAoMB0FsaWJhYmExDzANBgNVBAsMBkFsaXl1bjEcMBoGA1UEAwwTUHJpdmF0"
    ∷ "ZSBLTVMgUm9vdCBDQTAeFw0yMzAxMDMxMTU1MTdaFw00MjEyMjkxMTU1MTdaMIGD"
    ∷ "MQswCQYDVQQGEwJDTjERMA8GA1UECAwIWmhlSmlhbmcxETAPBgNVBAcMCEhhbmda"
    ∷ "aG91MRAwDgYDVQQKDAdBbGliYWJhMQ8wDQYDVQQLDAZBbGl5dW4xKzApBgNVBAMM"
    ∷ "IlByaXZhdGUgS01TIGV1LWNlbnRyYWwtMSBTZWNvbmQgQ0EwggEiMA0GCSqGSIb3"
    ∷ "DQEBAQUAA4IBDwAwggEKAoIBAQCwmvB5AgLFeBLD/nxltk1yajtHyWnc5fJOtBAJ"
    ∷ "oZL8ig1EJVpCErIRNBhSwvGK2VhGacIPtY55KRSmkQX4gtBHuw1N0YSP7puE+PyP"
    ∷ "qEtHsZfTry1hERsJsNF0AyLh+28dM+PMC36OJEdHezjf7rVRubTcKZpBn36MCl/M"
    ∷ "Iy20CRyqe3ESc/qSX//YHBDnIAEAbm3A/U4VXnQN8RbFQaUBstKmpgj6N7mXI/zQ"
    ∷ "tZEUtlJEaVBAubg+L38b0dsxuL2h70xzFSF2ANTHea0e2ZLOaI1URFxlkIdnoin6"
    ∷ "okvolnAtlrQHnGtbgvKRrqZrh1YIzUKpvpsF/SPeSZLnl76DAgMBAAGjZjBkMB0G"
    ∷ "A1UdDgQWBBREHMheMSXr6Ggvtthov6HBPDt3ITAfBgNVHSMEGDAWgBQFSs1Eef3e"
    ∷ "o52DP2x5cVEZBoXthDASBgNVHRMBAf8ECDAGAQH/AgEAMA4GA1UdDwEB/wQEAwIB"
    ∷ "hjANBgkqhkiG9w0BAQsFAAOCAQEABxrQRrHOZWlWCPq8ystEe3i4IxUenYTuXShh"
    ∷ "ZEX1AMcDhN9haZwAhD3eGjqWbXedsJZDgSnp/bYpqfGbBezZyZCw7xyYeWWU7Mxo"
    ∷ "WOCwv18owC66FWOKZb65MLqB1bqiSnKPbPdpTxWJ1CKP3x461p+gy4UQQ2Gobq43"
    ∷ "gEv7vRcpDnuss/uH1rSlWCSxNE9dT4NP/lyFb9QIWA3hz5XSmG/QhCqUB35q4M8H"
    ∷ "Fno+IO/bN4n9M78TibCNeguRdp5s8SbuMIuIN1YLO1ImeSmlFSe01xmfLEpmT7R6"
    ∷ "dxE7bz3X+cG94t3osfcLG2HpWfje1N4b8Q0+0DM7fkLkE+XWeA==" ∷ "-----END CERTIFICATE-----" ∷ []

abbrev pub hk_ca : List String
hk_ca =
    "-----BEGIN CERTIFICATE-----"
    ∷ "MIID4DCCAsigAwIBAgIJAP36lKvNIXHQMA0GCSqGSIb3DQEBCwUAMHQxCzAJBgNV"
    ∷ "BAYTAkNOMREwDwYDVQQIDAhaaGVKaWFuZzERMA8GA1UEBwwISGFuZ1pob3UxEDAO"
    ∷ "BgNVBAoMB0FsaWJhYmExDzANBgNVBAsMBkFsaXl1bjEcMBoGA1UEAwwTUHJpdmF0"
    ∷ "ZSBLTVMgUm9vdCBDQTAeFw0yNDAyMjkwMTMxNDFaFw00NDAyMjQwMTMxNDFaMIGC"
    ∷ "MQswCQYDVQQGEwJDTjERMA8GA1UECAwIWmhlSmlhbmcxETAPBgNVBAcMCEhhbmda"
    ∷ "aG91MRAwDgYDVQQKDAdBbGliYWJhMQ8wDQYDVQQLDAZBbGl5dW4xKjAoBgNVBAMM"
    ∷ "IVByaXZhdGUgS01TIGNuLWhvbmdrb25nIFNlY29uZCBDQTCCASIwDQYJKoZIhvcN"
    ∷ "AQEBBQADggEPADCCAQoCggEBALcxa1245JSf0c4JrnpbisFnb3LSxdWOrA8z5MpT"
    ∷ "MHxLbGCGv9HN3OsZ15tB+/h5Mi8Y17SJTof7vLUgK9lYUd2wmdD5HsIlsXOB1Osi"
    ∷ "rY8WTY5ARKUuvA7oT71JVaORnMY2A1SWxQM4ZFTO4EDWer01l75rKR8jvjNkPSar"
    ∷ "kMQ/QYjxAK7ByfjVTwY9/j9RqDyZzPHaz4bUEhBbsJL9dlpVhLZn0zcifGqG5WYE"
    ∷ "eOEyQMU2CbgWCyrJRaQmAeaWkhBLUKs1JorOnNH48PedO1U9LRqo3gyu+vj2s2zK"
    ∷ "TA/6/0kOFDeCUwc45b33dojmvAJv+ZUIHacKWNe9nU2dTpMCAwEAAaNmMGQwHQYD"
    ∷ "VR0OBBYEFGZZ9MoUkiS5SHwGRYUQbKk6LnodMB8GA1UdIwQYMBaAFAVKzUR5/d6j"
    ∷ "nYM/bHlxURkGhe2EMBIGA1UdEwEB/wQIMAYBAf8CAQAwDgYDVR0PAQH/BAQDAgGG"
    ∷ "MA0GCSqGSIb3DQEBCwUAA4IBAQCmY1ohTV7NM6HSBYSLl5WsbZeWH5bx13bKO5BR"
    ∷ "hyBodowaTL/Qp2+uLdKoj52bsdcq04n2rVIAQLCP5sIzArcl/ChHBSGwyNYy2V8Q"
    ∷ "I0Ld74/OP8tJa/WhALs4TJU6bf5jtNRbSENNvIcSDYOQjuI0lV5fBRNSqMvEwh38"
    ∷ "sB4w8+w5yWnt9IXrnvWD0fu5wFpNLNbSZfaE0DZbf/wh7jb68wlqAZwYEPrd0TBw"
    ∷ "4GEPTef+5rcrtS61vUP1NQBCk27e3zcL7WzHc5XNFQZjnYTgu9+5yMuxN4JVeOaD"
    ∷ "7dOkayeFfJ1YwJoGV6I+UN3qwgCCfwxkxrGjhwFayLDdQdBE" ∷ "-----END CERTIFICATE-----" ∷ []

abbrev pub zjk_ca : List String
zjk_ca =
    "-----BEGIN CERTIFICATE-----"
    ∷ "MIID4zCCAsugAwIBAgIJAOvkXLhGC6sfMA0GCSqGSIb3DQEBCwUAMHQxCzAJBgNV"
    ∷ "BAYTAkNOMREwDwYDVQQIDAhaaGVKaWFuZzERMA8GA1UEBwwISGFuZ1pob3UxEDAO"
    ∷ "BgNVBAoMB0FsaWJhYmExDzANBgNVBAsMBkFsaXl1bjEcMBoGA1UEAwwTUHJpdmF0"
    ∷ "ZSBLTVMgUm9vdCBDQTAeFw0yMzAxMDQwNjEwNDhaFw00MjEyMzAwNjEwNDhaMIGF"
    ∷ "MQswCQYDVQQGEwJDTjERMA8GA1UECAwIWmhlSmlhbmcxETAPBgNVBAcMCEhhbmda"
    ∷ "aG91MRAwDgYDVQQKDAdBbGliYWJhMQ8wDQYDVQQLDAZBbGl5dW4xLTArBgNVBAMM"
    ∷ "JFByaXZhdGUgS01TIGNuLXpoYW5namlha291IFNlY29uZCBDQTCCASIwDQYJKoZI"
    ∷ "hvcNAQEBBQADggEPADCCAQoCggEBAN49g2GLadz5pCiQx0pqiIag15R8pxG0BbTS"
    ∷ "tvywtYaIRfXu8I+oiTrhU8FqPRrGk6BYegwH5vq3gA65h/vqvJsuS7w609c/wQNA"
    ∷ "GyHIrKQ3vyJfFO9vJzQSoh6MxY6lJu8PVe2JabpjMosIBCYD1oOHgWk/fMdqos+e"
    ∷ "hCwWJt8fO1uE+QrizQQtDv8kp73QjMWibQW5u6QpHLl+PF89svsdsEOL03D7bX7i"
    ∷ "h2cOrfra9QF5tfxGuOEMggOCktiCZX044nFVm7hKLorBjNGPn+oMMSC86tdAwjlu"
    ∷ "IDkLgarayD8la/6tYi5k608Joio4HhaNK9yfaQObt/TteU+7oG0CAwEAAaNmMGQw"
    ∷ "HQYDVR0OBBYEFIve94pqt4QvZJqzmqeQBbgi8FlNMB8GA1UdIwQYMBaAFAVKzUR5"
    ∷ "/d6jnYM/bHlxURkGhe2EMBIGA1UdEwEB/wQIMAYBAf8CAQAwDgYDVR0PAQH/BAQD"
    ∷ "AgGGMA0GCSqGSIb3DQEBCwUAA4IBAQDE0P8qNbHridfx1aI8G0YNpp5ugnUc5VQQ"
    ∷ "Q/riX9gXZTu6m2g9ErG1Q4Ld7R977rirb6gN345XUvGQQ+rQ5kcnnzG27J8fwqCY"
    ∷ "IFtc5p20Btjca2RVuN6rjakuCeCSZVK1UQExzsOFG/MM/0ur32IJLUOA17zWsCXb"
    ∷ "Or32tyCTeUTQMGUpWxhlxOLqgVhYf4hQSbyRdcdX2rABg6H2bJor2/oEQkBd6HZs"
    ∷ "/V7dvCO8ddVdFBQ84R1IxYNYwsd5bwHXiQoDrfybHHjt+irU43+D/GcpIVgXwdxs"
    ∷ "vkOwWtSxFETCuxVyWSpxzJr/rIGnREVZ6kcy62ctv7CnYWflNl1N" ∷ "-----END CERTIFICATE-----" ∷ []

abbrev pub qd_ca : List String
qd_ca =
    "-----BEGIN CERTIFICATE-----"
    ∷ "MIID3zCCAsegAwIBAgIJALIzc2LtbEasMA0GCSqGSIb3DQEBCwUAMHQxCzAJBgNV"
    ∷ "BAYTAkNOMREwDwYDVQQIDAhaaGVKaWFuZzERMA8GA1UEBwwISGFuZ1pob3UxEDAO"
    ∷ "BgNVBAoMB0FsaWJhYmExDzANBgNVBAsMBkFsaXl1bjEcMBoGA1UEAwwTUHJpdmF0"
    ∷ "ZSBLTVMgUm9vdCBDQTAeFw0yMzExMjMwNzQ3NDJaFw00MzExMTgwNzQ3NDJaMIGB"
    ∷ "MQswCQYDVQQGEwJDTjERMA8GA1UECAwIWmhlSmlhbmcxETAPBgNVBAcMCEhhbmda"
    ∷ "aG91MRAwDgYDVQQKDAdBbGliYWJhMQ8wDQYDVQQLDAZBbGl5dW4xKTAnBgNVBAMM"
    ∷ "IFByaXZhdGUgS01TIGNuLXFpbmdkYW8gU2Vjb25kIENBMIIBIjANBgkqhkiG9w0B"
    ∷ "AQEFAAOCAQ8AMIIBCgKCAQEAnsJNATB4nocxGCA5o3XABxepeweGUnjkZlb1eaET"
    ∷ "rAS2f5Prc2q11U0o/jY/9jpv1Ug+og811zNffSdHmMx+tlpELhUkpkZPZNi2Wz6P"
    ∷ "weTQ7ArK+kHqMA41Y3CTHV5mHPFcGacDDwvy9+PZK4E0+nmLBQejrFqcE8WMiQUt"
    ∷ "fT9TuWlzOGV0rozAUVve4wFy5oUOI6zHqyqEzGmQK7ULYFuORCdjW8rBHviwYU1K"
    ∷ "gLfSkqcQlbtt/82Kg+ALNCmJWgn328GntNajaAt7kdjg2WgNfqXlDu3ojtItgrkE"
    ∷ "+/H9riphS6ke4AS396IBTCJpHswkpf7GnVenoSuD/pYKCwIDAQABo2YwZDAdBgNV"
    ∷ "HQ4EFgQUSdBg7whyOf5Wg0ekLsbh5Yi2MWQwHwYDVR0jBBgwFoAUBUrNRHn93qOd"
    ∷ "gz9seXFRGQaF7YQwEgYDVR0TAQH/BAgwBgEB/wIBADAOBgNVHQ8BAf8EBAMCAYYw"
    ∷ "DQYJKoZIhvcNAQELBQADggEBAE5PsIBN3DZsWW9cmxgHJCz8a1UFyeg7Bk62MbMg"
    ∷ "DdrjDSDK42wO9GnkWN+PreYHUVmZbgDJHnbdGyLFQxImpzaBf2X8txwO8xZpryBP"
    ∷ "Ugr0K5U2qQcf7+9JNDBprhqA3PW5fxQ3yJXN1CJkXb8Ij+jV5z90ewX7asVJLphF"
    ∷ "gEVZwBv+iY8He0uSya0LDdpXZfn/i34zRhoLTkwaPptXvmcgDi4g2EoA6fevHtAZ"
    ∷ "0tU5hoQ1F4elPOEmIGNfxokENQAJR53yooofgyA/eoZKlfeaAEHR3JbwlYT+f+/z"
    ∷ "gyqTwPbejwBZq6yOZp9ynLMSqp4mH7DDZ4ewhlbbQWj7l3s=" ∷ "-----END CERTIFICATE-----" ∷ []

abbrev pub my_ca : List String
my_ca =
    "-----BEGIN CERTIFICATE-----"
    ∷ "MIID4zCCAsugAwIBAgIJAIFM+f/CNY1sMA0GCSqGSIb3DQEBCwUAMHQxCzAJBgNV"
    ∷ "BAYTAkNOMREwDwYDVQQIDAhaaGVKaWFuZzERMA8GA1UEBwwISGFuZ1pob3UxEDAO"
    ∷ "BgNVBAoMB0FsaWJhYmExDzANBgNVBAsMBkFsaXl1bjEcMBoGA1UEAwwTUHJpdmF0"
    ∷ "ZSBLTVMgUm9vdCBDQTAeFw0yNDA0MTgwNzQ3NTBaFw00NDA0MTMwNzQ3NTBaMIGF"
    ∷ "MQswCQYDVQQGEwJDTjERMA8GA1UECAwIWmhlSmlhbmcxETAPBgNVBAcMCEhhbmda"
    ∷ "aG91MRAwDgYDVQQKDAdBbGliYWJhMQ8wDQYDVQQLDAZBbGl5dW4xLTArBgNVBAMM"
    ∷ "JFByaXZhdGUgS01TIGFwLXNvdXRoZWFzdC0zIFNlY29uZCBDQTCCASIwDQYJKoZI"
    ∷ "hvcNAQEBBQADggEPADCCAQoCggEBALG7I80dIbiRM0VtA+YoqBYJWlM7QHHZvwP6"
    ∷ "iidW/rgQONK1t5W0RqFzpuIWlElC5+uLMyuqwtsFwzVYWaL4bPkhg07hk6N7mfHA"
    ∷ "89asRuPHj6YvRs7768HsgmYgf39/iMqZJvbRMz+mi9PtwNg7w5bz090Lg5Yo7WzF"
    ∷ "UQb/ZwDhy4fXUaiF9vo2y9Zv+QFlZ0mcMJ3uVbn94MtW0k/+WN+WdLrmjfGJbg8m"
    ∷ "eDlL+d6+KvaE3v7/q9pf+pJF4PEttgKVvWbhN4rCmQxWxpAfvrmFfXX7IvhqTFOG"
    ∷ "kLtmRnwdAcT4s0mylFn4D3kV9tQyxkyRkLixm6Ruu2vvJLjDrXECAwEAAaNmMGQw"
    ∷ "HQYDVR0OBBYEFIi6ptE3kdvsNBlwXZH4qNJaPZYxMB8GA1UdIwQYMBaAFAVKzUR5"
    ∷ "/d6jnYM/bHlxURkGhe2EMBIGA1UdEwEB/wQIMAYBAf8CAQAwDgYDVR0PAQH/BAQD"
    ∷ "AgGGMA0GCSqGSIb3DQEBCwUAA4IBAQCXYi6Tn5qufLibv4WzeoYOY2emVcc9cu+6"
    ∷ "UiLxnBPGS1Nz4jGzzmTfH/H81ZmjZZ/9JweC1cFRrLfe8316QejDDiWWFnZxV+Hs"
    ∷ "qBzArdMZh9vW+r8FdECIixjOu8YBc3pEbZyn7dHb8EqeibeJpr8eWKWi0qwVSGKa"
    ∷ "W4r9EasJROABhstNHQFTGcatIRVw7PmKDYXBRtBUM1GuX0ljHFaV+cgr3eW1hE/d"
    ∷ "6aEq7vtty8wrlkOENW2QeYvBzVRDsw+zaejUI1E3xznR7nHkjMoz6Imr2Sq05gl6"
    ∷ "8xqQO92yxldq31B7ktM+Wbqktt4djq4gPZ/cXKZJieOovyMFaoaR" ∷ "-----END CERTIFICATE-----" ∷ []

abbrev pub hhht_ca : List String
hhht_ca =
    "-----BEGIN CERTIFICATE-----"
    ∷ "MIID4TCCAsmgAwIBAgIJAPhgCcLWvELzMA0GCSqGSIb3DQEBCwUAMHQxCzAJBgNV"
    ∷ "BAYTAkNOMREwDwYDVQQIDAhaaGVKaWFuZzERMA8GA1UEBwwISGFuZ1pob3UxEDAO"
    ∷ "BgNVBAoMB0FsaWJhYmExDzANBgNVBAsMBkFsaXl1bjEcMBoGA1UEAwwTUHJpdmF0"
    ∷ "ZSBLTVMgUm9vdCBDQTAeFw0yMjEyMjAwMjAyMzFaFw00MjEyMTUwMjAyMzFaMIGD"
    ∷ "MQswCQYDVQQGEwJDTjERMA8GA1UECAwIWmhlSmlhbmcxETAPBgNVBAcMCEhhbmda"
    ∷ "aG91MRAwDgYDVQQKDAdBbGliYWJhMQ8wDQYDVQQLDAZBbGl5dW4xKzApBgNVBAMM"
    ∷ "IlByaXZhdGUgS01TIGNuLWh1aGVoYW90ZSBTZWNvbmQgQ0EwggEiMA0GCSqGSIb3"
    ∷ "DQEBAQUAA4IBDwAwggEKAoIBAQD7CyRuZK0fLBUdnZn0CHoOSA/kE56k9XMcq4Wk"
    ∷ "WA/10BEPzI6C081n+67mT3zI2Xg4gKfdTcb0Gu680UY7zPy+ySjoUy+y62A3zSjK"
    ∷ "GQm6THLIh1C8az231iDUdEsV9pst/cvTwjj3Indmvd8BigGpFe5GqDeaAC2Jt8mP"
    ∷ "OcWPe/tKTP49lPPfTy+YAzUUek2P4oiDR4su9gB3qifxe0A5DoIihrxHqw1hsmNJ"
    ∷ "cfp0TkkctJ6ZaCp8WE6Vst+6rSeYPI899iuCRrPAXXptw84n618mT3eKp7MflKS3"
    ∷ "lJTEV8pVPwFFiPWLZ4EzJUNpxUUK4iuVYe2IFlh0ySeIR2hDAgMBAAGjZjBkMB0G"
    ∷ "A1UdDgQWBBQvlnmkkV2D3JedUKU44UCG5fkHvDAfBgNVHSMEGDAWgBQFSs1Eef3e"
    ∷ "o52DP2x5cVEZBoXthDASBgNVHRMBAf8ECDAGAQH/AgEAMA4GA1UdDwEB/wQEAwIB"
    ∷ "hjANBgkqhkiG9w0BAQsFAAOCAQEAaPU1bY38AiBCTdxAodq74rD6rDI6fXVRJ2u5"
    ∷ "AOpJFP78RaLJ0AI+7Wvs1w5zOC1Elcw7j0Xo6iqZcS/aKvt/B74Q5CyLLkJN9Gc6"
    ∷ "9ge9YGxSDq1YEacM2n2ipkVTc/gB8QT3Dra8cuTJHAsbrAh7wdnKmQU6L1Z632XJ"
    ∷ "EEWXzoWiwTEKzaLTR5ezhSUxK2t8BQtml6heI19Q5Xn2OK6QeaX3DfMf0fSl+/9h"
    ∷ "DTU0jtAMBao3EKodLcPNilcDlVj+wn28bM30rA/93LDxjWHDxFIqg7Ujbul9Pp9m"
    ∷ "p1Q7uMAUGCwA+CBT88PsOMAIUtYQ23eNu/Va/VEL+ZbfEiGm0g==" ∷ "-----END CERTIFICATE-----" ∷ []
